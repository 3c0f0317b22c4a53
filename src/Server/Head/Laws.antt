-- ===== src/Server/Head/Laws.antt =====
-- How the head of a ref moves: forward, if the ref is sequenced, and so that the newest head stays.
use treevial.Prelude.{
  ℕ, ◌≤◌, ◌<◌, true, false, some, List, [], ◌∷◌, ok, err, leb, Bool-cases, leb→le, ◌≡◌, ◌≢◌, ◌↔◌,
  ◌⊎◌, inl, inr, refl, sym, ap, ◌∙◌, subst, subst₂, arith, max, All, Permᴰ,
}
use treevial.Git.{Hash}
use treevial.Server.Head.{
  Head, RefState, new_ref_state, is_sequenced, mixed_heads, not_advancing, differ, move, would_move,
  install, StoreId,
}

-- Once a head is installed, the kind of the ref is that of its head.
pub record IsHeadValid (st : RefState) : Type 0 where
  pub kind : st.installed ≡ true → st.sequenced ≡ is_sequenced st.head

new_ref_state-IsHeadValid : IsHeadValid new_ref_state
new_ref_state-IsHeadValid = record { kind = λ h. cc }

-- The ref takes the head: it has none yet, or one of the same kind, which the head must pass if the
-- ref is sequenced.
abbrev pub Takes : Head → RefState → Type 0
Takes h st =
    (st.installed ≡ false)
    ⊎ ((st.sequenced ≡ is_sequenced h) × (st.sequenced ≡ true → st.head.sequence < h.sequence))

-- The head comes again, or late.
abbrev pub IsStale : Head → RefState → Type 0
IsStale h st =
    (st.installed ≡ true)
    × (st.sequenced ≡ true)
    × (is_sequenced h ≡ true)
    × (h.sequence ≤ st.head.sequence)

abbrev pub IsMixed : Head → RefState → Type 0
IsMixed h st = (st.installed ≡ true) × (st.sequenced ≢ is_sequenced h)

-- The ref with the head that it has taken.
abbrev pub taken : Head → RefState → RefState
taken h st = record st { head = h; sequenced = is_sequenced h; installed = true }

taken-keeps : (h : Head) (st : RefState) → Takes h st → move h st ≡ (taken h st, ok true)
unfolding move
taken-keeps h st (inl e) = ground arith
taken-keeps h st (inr (k, n)) = ground arith

differ-same :
    (h : Head) (st : RefState)
    → differ st.sequenced (is_sequenced h) ≡ false
    → st.sequenced ≡ is_sequenced h
differ-same h st e = ground arith

differ-apart :
    (h : Head) (st : RefState)
    → st.sequenced ≡ is_sequenced h
    → differ st.sequenced (is_sequenced h) ≢ true
differ-apart h st e k = ground arith

ruling : (h : Head) (st : RefState) → Takes h st ⊎ IsStale h st ⊎ IsMixed h st
ruling h st = elim (Bool-cases st.installed) [
  | inl e ↦ elim (Bool-cases (differ st.sequenced (is_sequenced h))) [
    | inl d ↦ inr (inr (e, λ k. differ-apart h st k d))
    | inr d ↦ elim (Bool-cases st.sequenced) [
      | inl q ↦ elim (Bool-cases (leb h.sequence st.head.sequence)) [
        | inl l ↦
            inr (inl (e, q, sym (differ-same h st d) ∙ q, leb→le h.sequence st.head.sequence l))
        | inr l ↦ inl (inr (differ-same h st d, λ t. ground arith))
      ]
      | inr q ↦ inl (inr (differ-same h st d, λ t. ground arith))
    ]
  ]
  | inr e ↦ inl (inl e)
]

-- A head that the ref takes becomes its head, with its kind; one that is late or comes again changes
-- nothing and is reported as not moving; one of another kind changes nothing and is an error. One of
-- the three is the case.
pub move_lem :
    (h : Head) (st : RefState)
    → (Takes h st → move h st ≡ (taken h st, ok true))
      × (IsStale h st → move h st ≡ (st, ok false))
      × (IsMixed h st → move h st ≡ (st, err mixed_heads))
      × (Takes h st ⊎ IsStale h st ⊎ IsMixed h st)
move_lem h st = (taken-keeps h st, stale, mixed, cases)
  where
    stale : IsStale h st → move h st ≡ (st, ok false)
    stale c = unfold move in ground arith

    mixed : IsMixed h st → move h st ≡ (st, err mixed_heads)
    mixed c = unfold move in ground arith

    cases : Takes h st ⊎ IsStale h st ⊎ IsMixed h st
    cases = ruling h st

-- The heads that reach a ref, in the order in which they do: `SetHead` for each, whose error is
-- reported and leaves the ref as it is.
abbrev pub moves : List Head → RefState → RefState
moves [] st = st
moves (h ∷ hs) st = moves hs (move h st).0

-- The greatest sequence number among the heads, and one to start with.
abbrev pub newest : List Head → ℕ → ℕ
newest [] n = n
newest (h ∷ hs) n = newest hs (max n h.sequence)

-- Every head is sequenced, and its number determines the hash.
abbrev pub IsNumbered : (ℕ → Hash) → Head → Type 0
IsNumbered f h = (is_sequenced h ≡ true) × (h.hash ≡ f h.sequence)

step-newest :
    (f : ℕ → Hash) (h : Head) (st : RefState)
    → IsNumbered f h
    → st.installed ≡ true
    → st.sequenced ≡ true
    → IsNumbered f st.head
    → ((move h st).0.head.sequence ≡ max st.head.sequence h.sequence)
      × ((move h st).0.installed ≡ true)
      × ((move h st).0.sequenced ≡ true)
      × IsNumbered f (move h st).0.head
step-newest f h st n i s m = unfold move in ground arith

newest-moves :
    (f : ℕ → Hash) (hs : List Head) (st : RefState)
    → All (IsNumbered f) hs
    → st.installed ≡ true
    → st.sequenced ≡ true
    → IsNumbered f st.head
    → ((moves hs st).head.sequence ≡ newest hs st.head.sequence)
      × ((moves hs st).head.hash ≡ f (newest hs st.head.sequence))
newest-moves f [] st a i s n = (refl, n.1)
newest-moves f (h ∷ hs) st a i s n =
    let p = step-newest f h st a.0 i s n in
    let r = newest-moves f hs (move h st).0 a.1 p.1 p.2 p.3 in
    subst
      (λ k.
        ((moves hs (move h st).0).head.sequence ≡ newest hs k)
        × ((moves hs (move h st).0).head.hash ≡ f (newest hs k)))
      p.0 r

newest-perm : {hs ks : List Head} → Permᴰ hs ks → (n : ℕ) → newest hs n ≡ newest ks n
newest-perm Permᴰ.nil n = refl
newest-perm (Permᴰ.cons {a} {b} {l₂ = l} e p) n =
    newest-perm p (max n a.sequence) ∙ ap (λ h. newest l (max n h.sequence)) e
newest-perm (Permᴰ.swap {a} {b} {a'} {b'} {l} e f) n = ap (newest l) (
    subst₂ (λ h k. max (max n a.sequence) b.sequence ≡ max (max n h.sequence) k.sequence) f e
      (omega arith))
newest-perm (Permᴰ.trans p q) n = newest-perm p n ∙ newest-perm q n

All-perm : (P : Head → Type 0) {hs ks : List Head} → Permᴰ hs ks → All P hs → All P ks
All-perm P Permᴰ.nil a = tt
All-perm P (Permᴰ.cons e p) a = (subst P e a.0, All-perm P p a.1)
All-perm P (Permᴰ.swap e f) a = (subst P f a.1.0, (subst P e a.0, a.1.1))
All-perm P (Permᴰ.trans p q) a = All-perm P q (All-perm P p a)

-- Let a ref be installed and sequenced, and let its head and the heads that follow be sequenced, each
-- with the hash that its number determines. Whatever the order in which the heads arrive, and however
-- many of them are refused as late, the ref ends at the one with the greatest number of all.
pub moves-newest :
    (f : ℕ → Hash) (hs : List Head) (st : RefState)
    → All (IsNumbered f) hs
    → st.installed ≡ true
    → st.sequenced ≡ true
    → IsNumbered f st.head
    → {ks : List Head} → Permᴰ hs ks
    → ((moves ks st).head.sequence ≡ newest hs st.head.sequence)
      × ((moves ks st).head.hash ≡ f (newest hs st.head.sequence))
moves-newest f hs st a i s n {ks} p =
    subst (λ k. ((moves ks st).head.sequence ≡ k) × ((moves ks st).head.hash ≡ f k))
      (sym (newest-perm p st.head.sequence))
      (newest-moves f ks st (All-perm (IsNumbered f) p a) i s n)

-- `wouldMove` answers what `moveHead` would: it approves of the heads that move the ref, calls those
-- that would leave it where it is not advancing, and refuses with the same error those that are
-- refused.
pub would_move_lem :
    (h : Head) (st : RefState)
    → ((would_move h st ≡ ok tt) ↔ ((move h st).1 ≡ ok true))
      × ((would_move h st ≡ err not_advancing) ↔ ((move h st).1 ≡ ok false))
      × ((would_move h st ≡ err mixed_heads) ↔ ((move h st).1 ≡ err mixed_heads))
would_move_lem h st = unfold would_move in unfold move in ground arith

-- Installing a store and a head leaves the ref with that store whatever becomes of the head, and moves
-- the head as `moveHead` does.
pub install_lem :
    (s : StoreId) (h : Head) (st : RefState)
    → ((install s h st).0.store ≡ some s)
      × ((install s h st).0.head ≡ (move h st).0.head)
      × ((install s h st).1 ≡ (move h st).1)
install_lem s h st = unfold install in unfold move in ground arith
