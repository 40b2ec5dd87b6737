-- ===== src/Core/Duration/Trim.antt =====
-- `trim` of packages/core/src/duration.ts: it takes the white space off both ends and no more.
use mathlib.Core.List.{reverse, reverse-append, reverse-reverse}
use tslock.Prelude.{
  ℕ, ◌≡◌, refl, sym, ap, ◌∙◌, true, false, List, [], ◌∷◌, ◌++◌, All, Bool-cases, inl, inr,
}
use tslock.Core.Duration.{is_space, drop_spaces, trim}

abbrev pub Spaces : List ℕ → Type 0
Spaces = All (λ c. is_space c ≡ true)

abbrev pub Inked : List ℕ → Type 0
Inked = All (λ c. is_space c ≡ false)

pub All-append {ℓ κ} :
    {A : Type ℓ} (P : A → Type κ) (xs ys : List A) → All P xs → All P ys → All P (xs ++ ys)
All-append P [] ys hx hy = hy
All-append P (x ∷ xs) ys hx hy = (hx.0, All-append P xs ys hx.1 hy)

All-reverse {ℓ κ} : {A : Type ℓ} (P : A → Type κ) (xs : List A) → All P xs → All P (reverse xs)
All-reverse P [] h = tt
All-reverse P (x ∷ xs) h =
    rw (reverse-append (x ∷ []) xs)
      (All-append P (reverse xs) (x ∷ []) (All-reverse P xs h.1) (h.0, tt))

drop_spaces-append : (p cs : List ℕ) → Spaces p → drop_spaces (p ++ cs) ≡ drop_spaces cs
unfolding drop_spaces
drop_spaces-append [] cs h = refl
drop_spaces-append (c ∷ p) cs h = rw (h.0, drop_spaces) (drop_spaces-append p cs h.1)

drop_spaces-Inked : (cs : List ℕ) → Inked cs → drop_spaces cs ≡ cs
unfolding drop_spaces
drop_spaces-Inked [] h = refl
drop_spaces-Inked (c ∷ cs) h = rw (h.0, drop_spaces)

drop_spaces_head : (c : ℕ) (cs : List ℕ) → is_space c ≡ false → drop_spaces (c ∷ cs) ≡ c ∷ cs
unfolding drop_spaces
drop_spaces_head c cs h = rw (h, drop_spaces)

-- White space round a text that has none, and is not empty, is what `trim` removes.
pub trim_padded :
    (p : List ℕ) (c : ℕ) (m q : List ℕ)
    → Spaces p
    → Inked (c ∷ m)
    → Spaces q
    → trim (p ++ ((c ∷ m) ++ q)) ≡ c ∷ m
unfolding trim drop_spaces
trim_padded p c m q hp hm hq =
    ap (λ cs. reverse (drop_spaces (reverse cs)))
      (drop_spaces-append p ((c ∷ m) ++ q) hp ∙ drop_spaces_head c (m ++ q) hm.0)
    ∙ ap (λ cs. reverse (drop_spaces cs)) (reverse-append (c ∷ m) q)
    ∙ ap reverse (
        drop_spaces-append (reverse q) (reverse (c ∷ m)) (All-reverse _ q hq)
        ∙ drop_spaces-Inked (reverse (c ∷ m)) (All-reverse _ (c ∷ m) hm))
    ∙ reverse-reverse (c ∷ m)

drop_spaces_split : (cs : List ℕ) → (p : List ℕ) × (cs ≡ p ++ drop_spaces cs) × Spaces p
unfolding drop_spaces
drop_spaces_split [] = ([], refl, tt)
drop_spaces_split (c ∷ cs) = elim (Bool-cases (is_space c)) [
  | inl e ↦
      let (p, eq, h) = drop_spaces_split cs in (c ∷ p, rw (e, drop_spaces) (ap (◌∷◌ c) eq), (e, h))
  | inr e ↦ ([], rw (e, drop_spaces) refl, tt)
]

-- A text is its trimmed form with white space on both sides.
pub trim_split :
    (cs : List ℕ) → (p : List ℕ) × (q : List ℕ) × (cs ≡ p ++ (trim cs ++ q)) × Spaces p × Spaces q
unfolding trim
trim_split cs =
    let (p, e, hp) = drop_spaces_split cs in
    let (q, f, hq) = drop_spaces_split (reverse (drop_spaces cs)) in
    (
      p,
      reverse q,
      e ∙ ap (◌++◌ p) (sym (reverse-reverse (drop_spaces cs)) ∙ ap reverse f ∙ reverse-append q _),
      hp,
      All-reverse _ q hq,
    )
