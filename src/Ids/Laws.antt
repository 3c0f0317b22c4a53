-- ===== src/Ids/Laws.antt =====
-- What an accepted name is like.
use treevial.Prelude.{
  ℕ, ◌≤◌, Bool, true, false, List, [], ◌∷◌, ◌++◌, Bytes, length, ok, has, ◌==◌, same_bytes_iff, ◌≡◌,
  ◌≢◌, refl, sym, ◌∙◌, ap, subst, ==_iff, arith, All, Bool-cases, inl, inr,
}
use treevial.Prelude.Text.{
  ascii, has_prefix, has_suffix, split, join, join-split, split-cons, has_prefix-append,
  split-no_separator,
}
use treevial.Ids.{
  check_bytes, bad_in_id, bad_in_ref, validate_id, validate_client_id, validate_server_id,
  check_components, check_split, check_parts, validate_ref, max_ref_length, max_client_id_length,
  max_server_id_length,
}

check_bytes-All :
    (bad : ℕ → Bool) (s : Bytes) → check_bytes bad s ≡ ok tt → All (λ c. bad c ≡ false) s
check_bytes-All bad [] h = tt
check_bytes-All bad (c ∷ s) h = (ground arith, check_bytes-All bad s (ground arith))

has-All_good :
    (bad : ℕ → Bool) (c : ℕ)
    → bad c ≡ true
    → (s : Bytes) → All (λ d. bad d ≡ false) s
    → has s c ≡ false
has-All_good bad c b [] h = refl
has-All_good bad c b (x ∷ s) h = elim (Bool-cases (x == c)) [
  | inl e ↦ cc (ap bad ((==_iff x c).0 e), h.0, b)
  | inr n ↦ ground (arith, has-All_good bad c b s h.1)
]

-- A byte that the loop refuses does not stand in an accepted text.
has-check_bytes :
    (bad : ℕ → Bool) (s : Bytes) (c : ℕ)
    → bad c ≡ true
    → check_bytes bad s ≡ ok tt
    → has s c ≡ false
has-check_bytes bad s c b h = has-All_good bad c b s (check_bytes-All bad s h)

-- What the connection needs of a name: no space, and no control character of ASCII.
pub record IsOneField (s : Bytes) : Type 0 where
  pub no_blank : (c : ℕ) → c ≤ b' ' → has s c ≡ false
  pub no_delete : has s 0x7f ≡ false

bad_in_id_blank : (c : ℕ) → c ≤ b' ' → bad_in_id c ≡ true
unfolding bad_in_id
bad_in_id_blank c h = ground arith

bad_in_ref_blank : (c : ℕ) → c ≤ b' ' → bad_in_ref c ≡ true
unfolding bad_in_ref
bad_in_ref_blank c h = ground arith

validate_id-IsOneField :
    (id : Bytes) (limit : ℕ) → validate_id id limit ≡ ok tt → IsOneField id × (length id ≤ limit)
unfolding validate_id
validate_id-IsOneField id limit h =
    let passed : check_bytes bad_in_id id ≡ ok tt = ground arith in
    (
      record {
        no_blank = λ c le. has-check_bytes bad_in_id id c (bad_in_id_blank c le) passed;
        no_delete = has-check_bytes bad_in_id id 0x7f refl passed;
      },
      ground arith,
    )

-- An accepted client name is one field of a line, and at most as long as its limit.
pub validate_client_id-IsOneField :
    (id : Bytes)
    → validate_client_id id ≡ ok tt
    → IsOneField id × (length id ≤ max_client_id_length)
unfolding validate_client_id
validate_client_id-IsOneField id = validate_id-IsOneField id max_client_id_length

-- An accepted server name is one field of a line, and at most as long as its limit.
pub validate_server_id-IsOneField :
    (id : Bytes)
    → validate_server_id id ≡ ok tt
    → IsOneField id × (length id ≤ max_server_id_length)
unfolding validate_server_id
validate_server_id-IsOneField id = validate_id-IsOneField id max_server_id_length

-- What a component of a ref is like.
pub record IsComponent (c : Bytes) : Type 0 where
  pub nonempty : c ≢ []
  pub no_dot : has_prefix c (ascii ".") ≡ false
  pub no_lock : has_suffix c (ascii ".lock") ≡ false
  pub no_slash : has c b'/' ≡ false

check_components-All :
    (cs : List Bytes)
    → All (λ c. has c b'/' ≡ false) cs
    → check_components cs ≡ ok tt
    → All IsComponent cs
unfolding check_components
check_components-All [] s h = tt
check_components-All (c ∷ cs) s h = (
  record {
    nonempty = λ e. ground (arith, same_bytes_iff c []);
    no_dot = ground arith;
    no_lock = ground arith;
    no_slash = s.0;
  },
  check_components-All cs s.1 (ground arith),
)

-- What a ref is: `refs`, at least two more components, a slash between each two, within the length.
pub record IsRef (ref : Bytes) : Type 0 where
  pub bounded : length ref ≤ max_ref_length
  pub one_field : IsOneField ref
  pub first : Bytes
  pub second : Bytes
  pub others : List Bytes
  pub joined : ref ≡ join b'/' (ascii "refs" ∷ first ∷ second ∷ others)
  pub components : All IsComponent (first ∷ second ∷ others)

-- The parts of an accepted ref.
split-refs :
    (ref rest : Bytes)
    → ref ≡ ascii "refs/" ++ rest
    → split b'/' ref ≡ ascii "refs" ∷ split b'/' rest
split-refs ref rest e = ap (split b'/') e ∙ split-cons b'/' (ascii "refs") rest refl

components-IsRef :
    (ref rest : Bytes) (parts : List Bytes)
    → ref ≡ ascii "refs/" ++ rest
    → split b'/' rest ≡ parts
    → check_split (ascii "refs" ∷ parts) ≡ ok tt
    → length ref ≤ max_ref_length
    → IsOneField ref
    → IsRef ref
unfolding check_split
components-IsRef ref rest [] e s h bounded field = cc
components-IsRef ref rest (c ∷ []) e s h bounded field = cc
components-IsRef ref rest (c ∷ d ∷ cs) e s h bounded field = record {
  bounded = bounded;
  one_field = field;
  first = c;
  second = d;
  others = cs;
  joined =
      sym (join-split b'/' ref)
      ∙ ap (join b'/') (split-refs ref rest e ∙ ap (λ l. ascii "refs" ∷ l) s);
  components =
      check_components-All (c ∷ d ∷ cs)
        (subst (All (λ c. has c b'/' ≡ false)) s (split-no_separator b'/' rest))
        (unfold check_components in ground arith);
}

check_parts-split :
    (ref : Bytes)
    → check_parts ref (check_bytes bad_in_ref ref) ≡ ok tt
    → (check_bytes bad_in_ref ref ≡ ok tt) × (check_split (split b'/' ref) ≡ ok tt)
unfolding check_parts
check_parts-split ref h = ground arith

-- An accepted ref is a ref: it is one field of a line, and `refs` with at least two more components,
-- each nonempty, with no dot in front and no `.lock` behind.
pub validate_ref-IsRef : (ref : Bytes) → validate_ref ref ≡ ok tt → IsRef ref
unfolding validate_ref
validate_ref-IsRef ref h =
    let (rest, e) = has_prefix-append ref (ascii "refs/") (ground arith) in
    let (clean, parts) = check_parts-split ref (ground arith) in
    components-IsRef ref rest (split b'/' rest) e (refl {a = split b'/' rest})
      (subst (λ l. check_split l ≡ ok tt) (split-refs ref rest e) parts) (ground arith)
      (record {
        no_blank = λ c le. has-check_bytes bad_in_ref ref c (bad_in_ref_blank c le) clean;
        no_delete = has-check_bytes bad_in_ref ref 0x7f refl clean;
      })
