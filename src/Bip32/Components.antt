-- ===== src/Bip32/Components.antt =====
-- What a path that parses says: its components stand for its indices, one by one.
use maknoon_trezor_core_rs.Prelude.{
  ℕ, ◌+◌, ◌^◌, ◌<◌, ◌≡◌, ◌∙◌, Bool, Bool-cases, inl, inr, true, false, Option, none, some, List, [],
  ◌∷◌, ◌++◌, sym, ap, refl, ◌⊎◌, reverse, leb, ◌==◌, ==_iff, if◌then◌else◌, arith, bit_or,
  bit_or_top',
}
use mathlib.Core.List.{reverse-reverse, reverse-append}
use mathlib.Core.Path.{subst}
use maknoon_trezor_core_rs.Error.{TrezorError, Result, ok, err, >>=-eq-ok}
use maknoon_trezor_core_rs.Bip32.{
  Text, trim, strip_root, split, is_hardened_mark, strip_mark, parse_u32, hardened_bit, index_of,
  parse_component, parse_components, is_root, parse_path,
}

-- A component: the digits of an index below 2^31, or these and a mark, which stands for 2^31 more.
abbrev pub Stands : Text → ℕ → Type 0
Stands comp n =
    (digits : Text) × (idx : ℕ) × (parse_u32 digits ≡ some idx)
    × (idx < 2 ^ 31)
    × (((comp ≡ digits) × (n ≡ idx))
        ⊎ ((mark : ℕ) × (is_hardened_mark mark ≡ true)
            × (comp ≡ digits ++ (mark ∷ []))
            × (n ≡ 2 ^ 31 + idx)))

-- The components, without the white space around them, stand for the indices.
abbrev pub StandFor : List Text → List ℕ → Type 0
StandFor [] [] = Unit
StandFor [] (n ∷ ns) = ⊥
StandFor (raw ∷ raws) [] = ⊥
StandFor (raw ∷ raws) (n ∷ ns) = Stands (trim raw) n × StandFor raws ns

-- A text that names the root alone.
abbrev pub IsRoot : Text → Type 0
IsRoot body = (body ≡ []) ⊎ (body ≡ 0x6d ∷ []) ⊎ (body ≡ 0x4d ∷ [])

clash : {A B : Type 0} {e : TrezorError} {k : A} → ◌≡◌ {A = Result A} (err e) (ok k) → B
clash h = cc

-- The index of digits that were read.
index_of-eq-ok :
    (input comp : Text) (hardened : Bool) (o : Option ℕ) (n : ℕ)
    → index_of input comp hardened o ≡ ok n
    → (idx : ℕ) × (o ≡ some idx) × (idx < 2 ^ 31) × (n ≡ (if hardened then 2 ^ 31 + idx else idx))
index_of-eq-ok input comp hardened none n e = clash e
index_of-eq-ok input comp hardened (some idx) n e = elim (Bool-cases (leb hardened_bit idx)) [
  | inl big ↦ clash (rw big at e)
  | inr small ↦
      let same : ok (if hardened then bit_or idx hardened_bit else idx) ≡ ok n = rw small at e in
      let value : (if hardened then bit_or idx hardened_bit else idx) ≡ n = cc in
      let below : idx < 2 ^ 31 = ground arith in
      (idx, refl, below, sym value ∙ marked hardened below)
]
  where
    marked :
        (b : Bool)
        → idx < 2 ^ 31
        → (if b then bit_or idx hardened_bit else idx) ≡ (if b then 2 ^ 31 + idx else idx)
    marked true h = bit_or_top' 31 idx h
    marked false h = refl

-- The last character is a mark, or the text holds digits only.
strip_mark_cases :
    (rev : Text)
    → ((mark : ℕ) × (rest : Text) × (is_hardened_mark mark ≡ true)
        × (rev ≡ mark ∷ rest)
        × (strip_mark rev ≡ (reverse rest, true)))
      ⊎ (strip_mark rev ≡ (reverse rev, false))
strip_mark_cases [] = inr refl
strip_mark_cases (c ∷ cs) = elim (Bool-cases (is_hardened_mark c)) [
  | inl e ↦ inl (c, cs, e, refl, rw e refl)
  | inr e ↦ inr (rw e refl)
]

parse_component-Stands :
    (input comp : Text) (n : ℕ) → parse_component input comp ≡ ok n → Stands comp n
unfolding parse_component
parse_component-Stands input [] n e = clash e
parse_component-Stands input (c ∷ cs) n e =
    let rev = reverse (c ∷ cs) in
    let (idx, read, below, value) =
      index_of-eq-ok input (c ∷ cs) (strip_mark rev).1 (parse_u32 (strip_mark rev).0) n e in
    elim (strip_mark_cases rev) [
      | inl (mark, rest, m, r, s) ↦ (
        reverse rest,
        idx,
        ap (λ x. parse_u32 x.0) (sym s) ∙ read,
        below,
        inr (
          mark,
          m,
          sym (reverse-reverse (c ∷ cs)) ∙ ap reverse r ∙ reverse-append (mark ∷ []) rest,
          value ∙ ap (λ x. if x.1 then 2 ^ 31 + idx else idx) s,
        ),
      )
      | inr s ↦ (
        reverse rev,
        idx,
        ap (λ x. parse_u32 x.0) (sym s) ∙ read,
        below,
        inl (sym (reverse-reverse (c ∷ cs)), value ∙ ap (λ x. if x.1 then 2 ^ 31 + idx else idx) s),
      )
    ]

parse_components-StandFor :
    (input : Text) (ws : List Text) (ns : List ℕ)
    → parse_components input ws ≡ ok ns
    → StandFor ws ns
unfolding parse_components
parse_components-StandFor input [] [] e = tt
parse_components-StandFor input [] (n ∷ ns) e = cc
parse_components-StandFor input (w ∷ ws) ms e =
    let (n, hn, e1) = >>=-eq-ok (parse_component input (trim w)) _ e in
    let (ns, hns, e2) = >>=-eq-ok (parse_components input ws) _ e1 in
    let same : n ∷ ns ≡ ms = cc in
    subst (StandFor (w ∷ ws)) same
      (parse_component-Stands input (trim w) n hn, parse_components-StandFor input ws ns hns)

is_root-IsRoot : (body : Text) → is_root body ≡ true → IsRoot body
is_root-IsRoot [] e = inl refl
is_root-IsRoot (c ∷ []) e = elim (Bool-cases (c == 0x6d)) [
  | inl m ↦ inr (inl (ap (λ x. x ∷ []) ((==_iff c 0x6d).0 m)))
  | inr m ↦ inr (inr (ap (λ x. x ∷ []) ((==_iff c 0x4d).0 (rw m at e))))
]
is_root-IsRoot (c ∷ d ∷ cs) e = cc

-- A path that parses, without the white space around it and `m/` or `M/` before it, names the root
-- and has no index; or its components, split at the slashes, stand for the indices one by one: each
-- is, without the white space around it, a text that `parse_u32` reads as a number below 2^31, which
-- is the index, or such a text and a hardening mark behind it, and then the index is that number plus
-- 2^31.
pub parse_path-StandFor :
    (input : Text) (ns : List ℕ)
    → parse_path input ≡ ok ns
    → (IsRoot (strip_root (trim input)) × (ns ≡ [])) ⊎ StandFor (split (strip_root (trim input))) ns
unfolding parse_path
parse_path-StandFor input ns e = elim (Bool-cases (is_root (strip_root (trim input)))) [
  | inl root ↦ inl (is_root-IsRoot (strip_root (trim input)) root, nil ns (rw root at e))
  | inr body ↦
      inr (parse_components-StandFor input (split (strip_root (trim input))) ns (rw body at e))
]
  where
    nil : (xs : List ℕ) → ◌≡◌ {A = Result (List ℕ)} (ok []) (ok xs) → xs ≡ []
    nil xs h = cc
