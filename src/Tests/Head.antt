-- ===== src/Tests/Head.antt =====
-- A sequenced ref, and heads that reach it out of order.
use treevial.Prelude.{ℕ, ◌+◌, true, false, [], ◌∷◌, ok, err, ◌≡◌, ◌⊎◌, refl, Permᴰ}
use treevial.Server.Head.{Head, RefState, new_ref_state, move, mixed_heads}
use treevial.Server.Head.Laws.{Takes, IsStale, IsMixed, taken, moves, move_lem, moves-newest}

abbrev numbered : ℕ → Head
numbered n = record { hash = 100 + n; sequence = n }

abbrev at_three : RefState
at_three = record new_ref_state { head = numbered 3; sequenced = true; installed = true }

move_lem_example :
    (Takes (numbered 4) at_three
      → move (numbered 4) at_three ≡ (taken (numbered 4) at_three, ok true))
    × (IsStale (numbered 4) at_three → move (numbered 4) at_three ≡ (at_three, ok false))
    × (IsMixed (numbered 4) at_three → move (numbered 4) at_three ≡ (at_three, err mixed_heads))
    × (Takes (numbered 4) at_three ⊎ IsStale (numbered 4) at_three ⊎ IsMixed (numbered 4) at_three)
move_lem_example = move_lem (numbered 4) at_three

moves-newest_example :
    ((moves (numbered 5 ∷ numbered 4 ∷ []) at_three).head.sequence ≡ 5)
    × ((moves (numbered 5 ∷ numbered 4 ∷ []) at_three).head.hash ≡ 105)
moves-newest_example =
    moves-newest (λ n. 100 + n) (numbered 4 ∷ numbered 5 ∷ []) at_three
      ((refl, refl), ((refl, refl), tt)) refl refl (refl, refl) (Permᴰ.swap refl refl)
