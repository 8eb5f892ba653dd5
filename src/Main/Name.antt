-- ===== src/Main/Name.antt =====
-- The format of a file goes by the end of its name.
use stm8flash.Common.{
  ℕ, ◌≡◌, ◌≢◌, ◌↔◌, inl, inr, refl, ap, ap₂, ◌∙◌, List, [], ◌∷◌, ◌++◌, none, some,
}
use stm8flash.Common.{true, ◌==◌, ==_iff, ne→==_false, Bool-cases, Option-cases, All, arith}
use mathlib.Core.Option.{some-injective}
use stm8flash.Main.{strrchr, same_text, is_ext}

same_text_refl : (s : List ℕ) → same_text s s ≡ true
unfolding same_text
same_text_refl [] = refl
same_text_refl (x ∷ s) = rw (same_text_refl s) (ground arith)

same_text-eq : (s t : List ℕ) → same_text s t ≡ true → s ≡ t
unfolding same_text
same_text-eq [] [] h = refl
same_text-eq [] (y ∷ t) h = cc
same_text-eq (x ∷ s) [] h = cc
same_text-eq (x ∷ s) (y ∷ t) h = elim (Bool-cases (x == y)) [
  | inl e ↦ ap₂ (λ a b. a ∷ b) ((==_iff x y).0 e) (same_text-eq s t (rw e at h))
  | inr e ↦ absurd (cc (rw e at h))
]

strrchr-none : (s : List ℕ) (c : ℕ) → All (λ x. x ≢ c) s → strrchr s c ≡ none
unfolding strrchr
strrchr-none [] c h = refl
strrchr-none (x ∷ s) c h = rw (strrchr-none s c h.1, ne→==_false x c h.0)

-- The last dot is that of an extension that has no other.
strrchr-append :
    (base ext : List ℕ) (c : ℕ)
    → All (λ x. x ≢ c) ext
    → strrchr (base ++ (c ∷ ext)) c ≡ some (c ∷ ext)
unfolding strrchr
strrchr-append [] ext c h = rw (strrchr-none ext c h, (==_iff c c).1 refl)
strrchr-append (x ∷ base) ext c h = rw (strrchr-append base ext c h)

strrchr-suffix : (s t : List ℕ) (c : ℕ) → strrchr s c ≡ some t → (base : List ℕ) × (s ≡ base ++ t)
unfolding strrchr
strrchr-suffix [] t c h = cc
strrchr-suffix (x ∷ s) t c h = elim (Option-cases (strrchr s c)) [
  | inl none_later ↦ elim (Bool-cases (x == c)) [
    | inl hit ↦ ([], some-injective (x ∷ s) t (rw (none_later, hit) at h))
    | inr miss ↦ absurd (cc (rw (none_later, miss) at h))
  ]
  | inr (u, later) ↦
      let (base, e) = strrchr-suffix s t c (later ∙ rw later at h) in (x ∷ base, ap (λ t. x ∷ t) e)
]

-- is_ext holds of a file's name exactly if the name ends in the extension, which begins with its
-- only dot.
pub is_ext_iff :
    (filename ext : List ℕ)
    → All (λ x. x ≢ b'.') ext
    → (is_ext filename (b'.' ∷ ext) ≡ true) ↔ ((base : List ℕ) × (filename ≡ base ++ (b'.' ∷ ext)))
unfolding is_ext
is_ext_iff filename ext h = (to, of)
  where
    to : is_ext filename (b'.' ∷ ext) ≡ true → (base : List ℕ) × (filename ≡ base ++ (b'.' ∷ ext))
    to e = elim (Option-cases (strrchr filename b'.')) [
      | inl no_dot ↦ absurd (cc (rw (no_dot, is_ext) at e))
      | inr (t, dot) ↦
          let (base, split) = strrchr-suffix filename t b'.' dot in
          (base, split ∙ ap (λ u. base ++ u) (same_text-eq t (b'.' ∷ ext) (rw (dot, is_ext) at e)))
    ]

    of : (base : List ℕ) × (filename ≡ base ++ (b'.' ∷ ext)) → is_ext filename (b'.' ∷ ext) ≡ true
    of (base, split) =
        rw (split, is_ext, strrchr-append base ext b'.' h) (same_text_refl (b'.' ∷ ext))
