-- ===== src/EventLoop/Alive.antt =====
-- EdTask's event loop: the state between its steps.
use ednio.Prelude.{
  ℕ, ◌+◌, ◌≡◌, refl, sym, ap, List, [], ◌∷◌, ◌++◌, Bool, true, false, some, ◌==◌, ==_iff, arith,
  map, length, Bool-cases, inl, inr,
}
use ednio.ObjList.Chain.{has, Distinct}
use ednio.EventLoop.{
  Kind, User, Evt, Loop, Called, addr_of, allocated, find, remove, Op, sets_fd, registers,
  deregisters, exits, Ready, World, run_op,
}

-- Events whose flag is `b`, with descriptors that are not 0.
abbrev pub AllReg : Bool → List Evt → Type 0
AllReg b [] = Unit {0}
AllReg b (e ∷ es) = (e.is_reg ≡ b) × ((e.fd == 0) ≡ false) × AllReg b es

abbrev pub AllListed : List Called → Type 0
AllListed [] = Unit {0}
AllListed (c ∷ cs) = (c.was_listed ≡ true) × AllListed cs

-- Events in `mEvtList` are registered and those in the other list are not; the addresses are
-- distinct; the counts are those of the lists, but that `evt_count` counts refused events too; and
-- every call was of an event in `mEvtList`.
pub record IsSound (s : Loop) : Type 0 where
  pub registered : AllReg true s.evt_list
  pub waiting : AllReg false s.dummy_list
  pub distinct : Distinct (allocated s)
  pub counted : s.evt_count ≡ length s.evt_list + s.refused
  pub alloc_counted : s.evt_alloc_cnt ≡ length s.evt_list + length s.dummy_list
  pub all_listed : AllListed s.calls

-- An event object registers a descriptor that is not 0, and registers and deregisters only while it
-- has this task, so between `setFd` and `deregisterEvent`; the descriptor that it deregisters is
-- still open, so that `epoll_ctl` takes it out.
abbrev pub Allowed : Op → Loop → Type 0
Allowed (sets_fd user) s = Unit {0}
Allowed (registers user fd ok) s = ((fd == 0) ≡ false) × (has user s.attached ≡ true)
Allowed (deregisters user del) s = (has user s.attached ≡ true) × (del ≡ true)
Allowed exits s = Unit {0}

-- Each is allowed where those before it lead.
abbrev pub AllAllowed : World → List Op → Loop → Type 0
AllAllowed w [] s = Unit {0}
AllAllowed w (o ∷ ops) s = Allowed o s × ((t : Loop) → run_op w o s ≡ some t → AllAllowed w ops t)

abbrev pub AllAt : List ℕ → List Ready → Type 0
AllAt addrs [] = Unit {0}
AllAt addrs (r ∷ rs) = (has r.ptr addrs ≡ true) × AllAt addrs rs

-- What is relied on: memory is given out where none is in use, event objects do what is allowed, and
-- `epoll_wait` reports pointers of events that are registered.
pub record IsLawful (w : World) : Type 0 where
  pub fresh : (xs : List ℕ) → has (w.malloc xs) xs ≡ false
  pub allowed : (u : User) (k : Kind) (s : Loop) → AllAllowed w (w.reacts u k s) s
  pub reports : (n : ℕ) (s : Loop) → AllAt (map addr_of s.evt_list) (w.epoll_wait n s)

pub map-addr_append : (xs ys : List Evt) → map addr_of (xs ++ ys) ≡ map addr_of xs ++ map addr_of ys
map-addr_append [] ys = refl
map-addr_append (x ∷ xs) ys = ap (λ l. x.addr ∷ l) (map-addr_append xs ys)

pub AllReg-append : (b : Bool) (xs ys : List Evt) → AllReg b xs → AllReg b ys → AllReg b (xs ++ ys)
AllReg-append b [] ys p q = q
AllReg-append b (x ∷ xs) ys (r, f, p) q = (r, f, AllReg-append b xs ys p q)

pub AllReg-remove : (b : Bool) (a : ℕ) (xs : List Evt) → AllReg b xs → AllReg b (remove a xs)
unfolding remove
AllReg-remove b a [] p = tt
AllReg-remove b a (x ∷ xs) (r, f, p) = elim (Bool-cases (a == x.addr)) [
  | inl same ↦ rw same p
  | inr other ↦ rw other (r, f, AllReg-remove b a xs p)
]

pub AllListed-append : (xs ys : List Called) → AllListed xs → AllListed ys → AllListed (xs ++ ys)
AllListed-append [] ys p q = q
AllListed-append (x ∷ xs) ys (r, p) q = (r, AllListed-append xs ys p q)

-- An event at an address that is in use, and what its flag says.
pub found :
    (b : Bool) (a : ℕ) (es : List Evt)
    → AllReg b es
    → has a (map addr_of es) ≡ true
    → (e : Evt) × (find a es ≡ some e) × (e.is_reg ≡ b) × ((e.fd == 0) ≡ false) × (e.addr ≡ a)
unfolding find
found b a [] p m = cc
found b a (x ∷ xs) (r, f, p) m = elim (Bool-cases (a == x.addr)) [
  | inl same ↦ (x, rw same refl, r, f, sym ((==_iff a x.addr).0 same))
  | inr other ↦ let (e, g, r', f', q) = found b a xs p (ground arith) in (e, rw other g, r', f', q)
]

pub find-append_some :
    (a : ℕ) (xs ys : List Evt) (e : Evt) → find a xs ≡ some e → find a (xs ++ ys) ≡ some e
unfolding find
find-append_some a [] ys e h = cc
find-append_some a (x ∷ xs) ys e h = ground (arith, find-append_some a xs ys e)

pub find-append_none :
    (a : ℕ) (xs ys : List Evt) → has a (map addr_of xs) ≡ false → find a (xs ++ ys) ≡ find a ys
unfolding find
find-append_none a [] ys o = refl
find-append_none a (x ∷ xs) ys o = ground (arith, find-append_none a xs ys)
