-- ===== src/ObjList.antt =====
-- EdObjList (ednio/EdObjList.h): a doubly linked list threaded through headers that stand before the
-- objects. The headers live in a store; an address is a number, and 0 is NULL. Reading or writing a
-- header that is not allocated is a fault.
pub mod Chain
pub mod Link
pub mod Push
pub mod Refine
pub mod Erase
pub mod Runs
pub mod Remove
pub mod Insert
mod Tests
use ednio.Prelude.{
  ℕ, ◌+◌, ◌-◌, ◌%◌, ◌/◌, ◌^◌, List, [], ◌∷◌, Bool, true, false, ◌&&◌, Option, none, some, ◌==◌,
  if◌then◌else◌, ◌>>=◌,
}

-- `listhdr_t`.
pub record Hdr : Type 0 where
  pub prev : ℕ
  pub next : ℕ
  pub seed : ℕ
  pub list : ℕ

abbrev pub Store : Type 0
Store = ℕ → Option Hdr

abbrev pub write : Store → ℕ → Hdr → Store
write h a v = λ b. if b == a then some v else h b

unfoldable pub modify : Store → ℕ → (Hdr → Hdr) → Option Store
modify h a f = elim (h a) [ none ↦ none | some v ↦ some (write h a (f v)) ]

-- The list's own fields, with its address, which headers refer to.
pub record ObjList : Type 0 where
  pub self : ℕ
  pub head : ℕ
  pub tail : ℕ
  pub list_seed : ℕ
  pub size : ℕ

-- The constructor, at an address.
abbrev pub new_list : ℕ → ObjList
new_list self = record {
  self = self;
  head = 0;
  tail = 0;
  list_seed = (self / 4) % 2 ^ 32;
  size = 0;
}

-- The header of an object that is in the list.
abbrev pub linked : ObjList → ℕ → ℕ → Hdr
linked l p n = record { prev = p; next = n; seed = l.list_seed; list = l.self }

-- A header with a seed and a list of 0 belongs to no list.
abbrev pub is_free : Hdr → Bool
is_free v = (v.seed == 0) && (v.list == 0)

abbrev pub grow : ObjList → ObjList
grow l = record l { size = (l.size + 1) % 2 ^ 32 }

abbrev pub shrink : ObjList → ObjList
shrink l = record l { size = (l.size + (2 ^ 32 - 1)) % 2 ^ 32 }

-- The links of `push_back` behind the tail, or in an empty list.
unfoldable pub link_back : Store → ObjList → ℕ → Option (Store × ObjList)
unfolding modify
link_back h l p =
    if l.tail == 0
    then some (write h p (linked l 0 0), grow (record l { head = p; tail = p }))
    else (do
      h' ← modify (write h p (linked l l.tail 0)) l.tail (λ v. record v { next = p })
      some (h', grow (record l { tail = p })))

unfoldable pub push_back : Store → ObjList → ℕ → Option (Store × ObjList)
unfolding link_back
push_back h l p = do v ← h p; if is_free v then link_back h l p else some (h, l)

-- Behind the header at `q`, if there is one, comes `b`; before the header at `q` stands `b`.
unfoldable pub set_next : Store → ℕ → ℕ → Option Store
unfolding modify
set_next h q b = if q == 0 then some h else modify h q (λ v. record v { next = b })

unfoldable pub set_prev : Store → ℕ → ℕ → Option Store
unfolding modify
set_prev h q b = if q == 0 then some h else modify h q (λ v. record v { prev = b })

-- `insert`.
unfoldable pub link_after : Store → ObjList → ℕ → ℕ → Option (Store × ObjList)
unfolding set_prev modify
link_after h l q p = do
  v ← h q
  h1 ← modify (write h p (linked l q v.next)) q (λ u. record u { next = p })
  h2 ← set_prev h1 v.next p
  some (h2, grow l)

unfoldable pub insert : Store → ObjList → ℕ → ℕ → Option (Store × ObjList)
unfolding link_after
insert h l q p = do
  u ← h q
  v ← h p
  if (u.seed == l.list_seed) && is_free v then link_after h l q p else some (h, l)

-- The first half of `remove`: what stood before is linked past the object. `cp` and `cn` are its
-- neighbours.
unfoldable pub unlink_prev : Store → ℕ → ℕ → Option Store
unfolding set_next set_prev
unlink_prev h cp cn = if cp == 0 then set_prev h cn 0 else set_next h cp cn

-- The second half: what stood behind is linked past it.
unfoldable pub unlink_next : Store → ℕ → ℕ → Option Store
unfolding set_next set_prev
unlink_next h cp cn = if cn == 0 then set_next h cp 0 else set_prev h cn cp

abbrev pub take_ends : ObjList → ℕ → ℕ → ObjList
take_ends l cp cn = record l {
  head = if cp == 0 then cn else l.head;
  tail = if cn == 0 then cp else l.tail;
}

abbrev pub freed : Hdr → Hdr
freed v = record v { seed = 0; list = 0 }

unfoldable pub unlink : Store → ObjList → ℕ → ℕ → ℕ → Option (Store × ObjList)
unfolding unlink_prev unlink_next modify
unlink h l p cp cn = do
  h1 ← unlink_prev h cp cn
  h2 ← unlink_next h1 cp cn
  h3 ← modify h2 p freed
  some (h3, shrink (take_ends l cp cn))

-- `remove`.
unfoldable pub remove : Store → ObjList → ℕ → Option (Store × ObjList)
unfolding unlink
remove h l p = do v ← h p; if v.seed == l.list_seed then unlink h l p v.prev v.next else some (h, l)

-- `pop_front`: the address of the object, or 0.
unfoldable pub pop_front : Store → ObjList → Option (ℕ × Store × ObjList)
unfolding remove
pop_front h l =
    if l.head == 0 then some (0, h, l) else (do r ← remove h l l.head; some (l.head, r.0, r.1))

-- `next` and `prev`: the address of the neighbour, or 0.
unfoldable pub next_of : Store → ℕ → Option ℕ
next_of h p = do v ← h p; some v.next

unfoldable pub prev_of : Store → ℕ → Option ℕ
prev_of h p = do v ← h p; some v.prev

-- `clear`.
unfoldable pub clear : ObjList → ObjList
clear l = record l { head = 0; tail = 0; list_seed = 0; size = 0 }
