-- ===== src/Client/Dial.antt =====
-- What a client that dialled is like, and what a server makes of its registration.
use treevial.Prelude.{
  ℕ, zero, suc, ◌<◌, ◌^◌, Bool, true, false, not, ◌&&◌, List, [], ◌∷◌, ◌++◌, All, Bytes, Result, ok,
  err, and_then, guard, ◌≡◌, refl, sym, ap, ◌∙◌, subst, ok_injective,
}
use treevial.Prelude.Int.{ℤ, pos, negsuc}
use treevial.Git.{Hash}
use treevial.Ids.{validate_client_id, validate_ref}
use treevial.Server.Options.{Tuning, IsTuned, with_dead_peer_timeout, tune-with_dead_peer_timeout}
use treevial.Server.Serve.{open_registration}
use treevial.Server.Serve.Laws.{open_registration-write_register}
use treevial.Wire.{HashText, IsHashText, register}
use treevial.Client.{
  Client, ClientOption, ClientFault, bad_id, bad_ref, bad_timeout, bad_history, new_client, with_id,
  with_history, with_timeout, apply_option, apply_options, or_client, keeps_nothing, dial, resume,
}

and_then-eq-ok :
    {A B : Type 0} (r : Result ClientFault A) (f : A → Result ClientFault B) {b : B}
    → and_then r f ≡ ok b
    → (a : A) × (r ≡ ok a) × (f a ≡ ok b)
and_then-eq-ok (ok a) f h = (a, refl, h)
and_then-eq-ok (err e) f h = cc

or_client-ok :
    {A E : Type 0} (f : E → ClientFault) (r : Result E A) {a : A} → or_client f r ≡ ok a → r ≡ ok a
or_client-ok f (ok b) h = ap ok (ok_injective h)
or_client-ok f (err e) h = cc

guard-ok : (b : Bool) (e : ClientFault) {u : Unit {0}} → guard b e ≡ ok u → b ≡ true
guard-ok true e h = refl
guard-ok false e h = cc

-- A history that is asked for keeps at least one state.
abbrev pub KeepsSome : Bool → ℤ → Type 0
KeepsSome true n = (k : ℕ) × (n ≡ pos (suc k))
KeepsSome false n = Unit

keeps_some :
    (sweeping : Bool) (n : ℤ) → not (sweeping && keeps_nothing n) ≡ true → KeepsSome sweeping n
keeps_some true (pos zero) h = cc
keeps_some true (pos (suc k)) h = (k, refl)
keeps_some true (negsuc n) h = cc
keeps_some false n h = tt

-- The kinds of options.
abbrev is_id : ClientOption → Bool
is_id (with_id _) = true
is_id _ = false

abbrev is_history : ClientOption → Bool
is_history (with_history _) = true
is_history _ = false

abbrev is_timeout : ClientOption → Bool
is_timeout (with_timeout _) = true
is_timeout _ = false

-- A value that the last option of a kind sets, or that stands where there is none of it.
pub record IsLast {A B : Type 0} (is_kind : ClientOption → Bool) (option : A → ClientOption)
    (sets : A → B) (unset : B) (options : List ClientOption) (value : B) : Type 0 where
  pub last :
      (before after : List ClientOption) (a : A)
      → options ≡ before ++ option a ∷ after
      → All (λ o. is_kind o ≡ false) after
      → value ≡ sets a
  pub absent : All (λ o. is_kind o ≡ false) options → value ≡ unset

apply_options-append :
    (os ps : List ClientOption) (c : Client)
    → apply_options (os ++ ps) c ≡ apply_options ps (apply_options os c)
apply_options-append [] ps c = refl
apply_options-append (o ∷ os) ps c = apply_options-append os ps (apply_option o c)

-- A field of a client that the options of one kind set, and no other option changes.
module _ {A B : Type 0} (is_kind : ClientOption → Bool) (option : A → ClientOption) (sets : A → B)
    (field : Client → B) (set : (a : A) (c : Client) → field (apply_option (option a) c) ≡ sets a)
    (skipped : (o : ClientOption) (c : Client)
      → is_kind o ≡ false
      → field (apply_option o c) ≡ field c) where
  apply_options-skipped :
      (os : List ClientOption) (c : Client)
      → All (λ o. is_kind o ≡ false) os
      → field (apply_options os c) ≡ field c
  apply_options-skipped [] c all = refl
  apply_options-skipped (o ∷ os) c all =
      apply_options-skipped os (apply_option o c) all.1 ∙ skipped o c all.0

  apply_options-IsLast :
      (os : List ClientOption)
      → IsLast is_kind option sets (field new_client) os (field (apply_options os new_client))
  apply_options-IsLast os = record {
    last = λ before after a e all.
        ap (λ l. field (apply_options l new_client)) e
        ∙ ap field (apply_options-append before (option a ∷ after) new_client)
        ∙ apply_options-skipped after (apply_option (option a) (apply_options before new_client))
            all
        ∙ set a (apply_options before new_client);
    absent = λ all. apply_options-skipped os new_client all;
  }

-- What the options of a client say: each field is what the last option of its kind says.
pub record HasOptions (options : List ClientOption) (c : Client) : Type 0 where
  pub id : IsLast is_id with_id (λ x. x) [] options c.id
  pub history : IsLast is_history with_history (λ n. n) (pos 0) options c.history
  pub sweeping : IsLast is_history with_history (λ _. true) false options c.sweeping
  pub dead_peer : IsLast is_timeout with_timeout (λ d. d) (pos 0) options c.dead_peer

apply_options-HasOptions :
    (options : List ClientOption) → HasOptions options (apply_options options new_client)
apply_options-HasOptions options = record {
  id = apply_options-IsLast is_id with_id (λ x. x) (λ c. c.id) (λ a c. refl) id_skipped options;
  history =
      apply_options-IsLast is_history with_history (λ n. n) (λ c. c.history) (λ a c. refl)
        history_skipped options;
  sweeping =
      apply_options-IsLast is_history with_history (λ _. true) (λ c. c.sweeping) (λ a c. refl)
        sweeping_skipped options;
  dead_peer =
      apply_options-IsLast is_timeout with_timeout (λ d. d) (λ c. c.dead_peer) (λ a c. refl)
        timeout_skipped options;
}
  where
    id_skipped : (o : ClientOption) (c : Client) → is_id o ≡ false → (apply_option o c).id ≡ c.id
    id_skipped (with_id _) c e = cc
    id_skipped (with_history _) c e = refl
    id_skipped (with_timeout _) c e = refl

    history_skipped :
        (o : ClientOption) (c : Client)
        → is_history o ≡ false
        → (apply_option o c).history ≡ c.history
    history_skipped (with_id _) c e = refl
    history_skipped (with_history _) c e = cc
    history_skipped (with_timeout _) c e = refl

    sweeping_skipped :
        (o : ClientOption) (c : Client)
        → is_history o ≡ false
        → (apply_option o c).sweeping ≡ c.sweeping
    sweeping_skipped (with_id _) c e = refl
    sweeping_skipped (with_history _) c e = cc
    sweeping_skipped (with_timeout _) c e = refl

    timeout_skipped :
        (o : ClientOption) (c : Client)
        → is_timeout o ≡ false
        → (apply_option o c).dead_peer ≡ c.dead_peer
    timeout_skipped (with_id _) c e = refl
    timeout_skipped (with_history _) c e = refl
    timeout_skipped (with_timeout _) c e = cc

-- A client that was dialled has the options that it was given: its name, whether it sweeps and what it then
-- keeps, and its budget are those of the last option of the kind, or unset where there is none of it. Its
-- name is an accepted one; if it sweeps, it keeps at least one state; its budget is not negative; and its
-- connection is tuned with the plain period of thirty seconds if the budget is zero, and otherwise with a
-- schedule whose user timeout fits the option of the socket, is less than five seconds above the budget,
-- and less than eight nanoseconds below it.
pub dial_lem :
    (options : List ClientOption) (c : Client) (t : Tuning)
    → dial options ≡ ok (c, t)
    → HasOptions options c
      × (validate_client_id c.id ≡ ok tt)
      × KeepsSome c.sweeping c.history
      × IsTuned c.dead_peer t
unfolding dial
dial_lem options c t run =
    let given = apply_options options new_client in
    let (_, named, run1) = and_then-eq-ok (or_client bad_id (validate_client_id given.id)) _ run in
    let (_, kept, run2) =
      and_then-eq-ok
        (guard (not (given.sweeping && keeps_nothing given.history)) (bad_history given.history)) _
        run1 in
    let (d, tuned, run3) =
      and_then-eq-ok (or_client bad_timeout (with_dead_peer_timeout given.dead_peer)) _ run2 in
    let same : given ≡ c = ap (λ p. p.0) (ok_injective run3) in
    (
      subst (HasOptions options) same (apply_options-HasOptions options),
      subst (λ c. validate_client_id c.id ≡ ok tt) same
          (or_client-ok bad_id (validate_client_id given.id) named),
      subst (λ c. KeepsSome c.sweeping c.history) same
          (keeps_some given.sweeping given.history (
            guard-ok (not (given.sweeping && keeps_nothing given.history))
              (bad_history given.history) kept)),
      subst (λ c. IsTuned c.dead_peer t) same
          (subst (IsTuned given.dead_peer) (ap (λ p. p.1) (ok_injective run3)) (
            tune-with_dead_peer_timeout given.dead_peer d
              (or_client-ok bad_timeout (with_dead_peer_timeout given.dead_peer) tuned))),
    )

-- Whatever a dialled client writes as it subscribes, where it does, the server takes on as what the client
-- asked for: its ref, the tree it holds, and its name.
pub open_registration-resume :
    (t : HashText)
    → IsHashText t
    → (options : List ClientOption) (c : Client) (tuning : Tuning) (ref line : Bytes)
      (synced : Hash)
    → dial options ≡ ok (c, tuning)
    → resume t c ref synced ≡ ok line
    → synced < 2 ^ 160
    → open_registration t line
      ≡ ok (record { type = register; ref = ref; client_id = c.id; hash = synced })
unfolding resume
open_registration-resume t texts options c tuning ref line synced dialled resumed fits =
    let (_, valid, written) = and_then-eq-ok (or_client bad_ref (validate_ref ref)) _ resumed in
    ap (open_registration t) (sym (ok_injective written))
    ∙ open_registration-write_register t texts ref c.id synced
        (or_client-ok bad_ref (validate_ref ref) valid) (dial_lem options c tuning dialled).1 fits
