-- ===== src/Task/Senders.antt =====
-- EdTask: the threads that wait for the messages of a list, and their notification.
use mathlib.Core.List.{map-append}
use ednio.Prelude.{
  ℕ, ◌≡◌, refl, sym, ap, ◌∙◌, List, [], ◌∷◌, ◌++◌, map, Option, none, some, append_assoc,
  append-nil,
}
use ednio.Task.{Task, Msg, History, notify, discard_all, closed_result}

-- The message that the dispatching thread holds.
abbrev pub hand : Option Msg → List Msg
hand none = []
hand (some m) = m ∷ []

abbrev pub sender_of : Option ℕ → List ℕ
sender_of none = []
sender_of (some s) = s ∷ []

-- The threads that wait for the messages of a list.
abbrev pub senders : List Msg → List ℕ
senders [] = []
senders (m ∷ ms) = sender_of m.sync ++ senders ms

abbrev pub woken_senders : Task → List ℕ
woken_senders t = map (λ p. p.0) t.history.woken

pub senders-append : (xs ys : List Msg) → senders (xs ++ ys) ≡ senders xs ++ senders ys
senders-append [] ys = refl
senders-append (m ∷ xs) ys =
    ap (λ t. sender_of m.sync ++ t) (senders-append xs ys)
    ∙ sym (append_assoc (sender_of m.sync) (senders xs) (senders ys))

-- A notification touches the list of those woken only.
pub notify_lem :
    (h : History) (m : Msg) (code : ℕ)
    → ((notify h m code).accepted ≡ h.accepted)
      × ((notify h m code).dispatched ≡ h.dispatched)
      × ((notify h m code).discarded ≡ h.discarded)
      × (map (λ p. p.0) (notify h m code).woken ≡ map (λ p. p.0) h.woken ++ sender_of m.sync)
unfolding notify
notify_lem h m code = go m.sync
  where
    go :
        (s : Option ℕ)
        → let h' : History = elim s [
          | none ↦ h
          | some x ↦ record h { woken = h.woken ++ (x, code) ∷ [] }
        ] in
          (h'.accepted ≡ h.accepted)
          × (h'.dispatched ≡ h.dispatched)
          × (h'.discarded ≡ h.discarded)
          × (map (λ p. p.0) h'.woken ≡ map (λ p. p.0) h.woken ++ sender_of s)
    go none = (refl, refl, refl, sym (append-nil _))
    go (some x) = (refl, refl, refl, map-append _ h.woken ((x, code) ∷ []))

pub discard_all_lem :
    (ms : List Msg) (h : History)
    → ((discard_all ms h).accepted ≡ h.accepted)
      × ((discard_all ms h).dispatched ≡ h.dispatched)
      × ((discard_all ms h).discarded ≡ h.discarded ++ ms)
      × (map (λ p. p.0) (discard_all ms h).woken ≡ map (λ p. p.0) h.woken ++ senders ms)
unfolding discard_all
discard_all_lem [] h = (refl, refl, sym (append-nil _), sym (append-nil _))
discard_all_lem (m ∷ ms) h =
    let h1 = record h { discarded = h.discarded ++ m ∷ [] } in
    let (a, d, c, w) = notify_lem h1 m closed_result in
    let (a', d', c', w') = discard_all_lem ms (notify h1 m closed_result) in
    (
      a' ∙ a,
      d' ∙ d,
      c' ∙ ap (λ t. t ++ ms) c ∙ append_assoc h.discarded (m ∷ []) ms,
      w' ∙ ap (λ t. t ++ senders ms) w ∙ append_assoc _ (sender_of m.sync) (senders ms),
    )
