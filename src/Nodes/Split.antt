-- ===== src/Nodes/Split.antt =====
-- Cutting a text at each separator, as a plain recursion: what the stream's tokens are compared to.
use beryldb.Prelude.{
  ℕ, zero, suc, ◌≤◌, ◌≡◌, refl, ap, length, false, none, some, List, [], ◌∷◌, ◌++◌, Str, IsNonempty,
  All, is_empty, take, drop, arith, ◌==◌, if◌then◌else◌, List-cases, inl, inr,
}
use beryldb.Nodes.{index_of, index_not}

abbrev onto_head : ℕ → List Str → List Str
onto_head c [] = (c ∷ []) ∷ []
onto_head c (w ∷ ws) = (c ∷ w) ∷ ws

-- The pieces between separators, the empty ones too.
unfoldable pub split : ℕ → Str → List Str
split sep [] = [] ∷ []
split sep (c ∷ s) = let rest = split sep s in if c == sep then [] ∷ rest else onto_head c rest

unfoldable pub nonempty : List Str → List Str
nonempty [] = []
nonempty (w ∷ ws) = let rest = nonempty ws in if is_empty w then rest else w ∷ rest

-- Text without the separator.
abbrev pub Lacks : ℕ → Str → Type 0
Lacks sep = All (λ c. (c == sep) ≡ false)

pub split-none : (sep : ℕ) (s : Str) → index_of sep s ≡ none → split sep s ≡ s ∷ []
unfolding split index_of
split-none sep [] h = refl
split-none sep (c ∷ s) h = ground (arith, split-none sep s)

pub split-some :
    (sep i : ℕ) (s : Str)
    → index_of sep s ≡ some i
    → split sep s ≡ take i s ∷ split sep (drop (suc i) s)
unfolding split index_of
split-some sep i [] h = cc
split-some sep zero (c ∷ s) h = ground arith
split-some sep (suc i) (c ∷ s) h = ground (arith, split-some sep i s)

pub nonempty-split-none : (sep : ℕ) (s : Str) → index_not sep s ≡ none → nonempty (split sep s) ≡ []
unfolding split nonempty index_not
nonempty-split-none sep [] h = refl
nonempty-split-none sep (c ∷ s) h = ground (arith, nonempty-split-none sep s)

pub nonempty-split-some :
    (sep i : ℕ) (s : Str)
    → index_not sep s ≡ some i
    → nonempty (split sep s) ≡ nonempty (split sep (drop i s))
unfolding split nonempty index_not
nonempty-split-some sep i [] h = cc
nonempty-split-some sep zero (c ∷ s) h = refl
nonempty-split-some sep (suc i) (c ∷ s) h = ground (arith, nonempty-split-some sep i s)

-- The text that `as_string` of the handlers writes: each word with the separator behind it.
unfoldable pub terminated : ℕ → List Str → Str
terminated sep [] = []
terminated sep (w ∷ ws) = w ++ sep ∷ terminated sep ws

pub split-append : (sep : ℕ) (w s : Str) → Lacks sep w → split sep (w ++ sep ∷ s) ≡ w ∷ split sep s
unfolding split
split-append sep [] s h = ground arith
split-append sep (c ∷ w) s h = ground (arith, split-append sep w s h.1)

pub nonempty-split-terminated :
    (sep : ℕ) (ws : List Str)
    → All (Lacks sep) ws
    → nonempty (split sep (terminated sep ws)) ≡ nonempty ws
unfolding terminated nonempty
nonempty-split-terminated sep [] h = unfold split in refl
nonempty-split-terminated sep (w ∷ ws) h =
    rw (split-append sep w (terminated sep ws) h.0)
      (ground (arith, nonempty-split-terminated sep ws h.1))

pub nonempty_lem : (ws : List Str) → All IsNonempty ws → nonempty ws ≡ ws
unfolding nonempty
nonempty_lem [] h = refl
nonempty_lem ([] ∷ ws) h = absurd h.0
nonempty_lem ((c ∷ w) ∷ ws) h = ap (◌∷◌ (c ∷ w)) (nonempty_lem ws h.1)

-- After the separators are skipped, the first piece is not empty.
pub head_nonempty :
    (sep j : ℕ) (s : Str) (w : Str) (ws : List Str)
    → index_not sep s ≡ some j
    → split sep (drop j s) ≡ w ∷ ws
    → is_empty w ≡ false
unfolding split index_not
head_nonempty sep j [] w ws h k = cc
head_nonempty sep zero (c ∷ s) w ws h k = elim (List-cases (split sep s)) [
  | inl e ↦ ground arith
  | inr (v, vs, e) ↦ ground arith
]
head_nonempty sep (suc j) (c ∷ s) w ws h k = ground (arith, head_nonempty sep j s w ws)

length-onto_head-le :
    (c : ℕ) (ws : List Str) → length (nonempty (onto_head c ws)) ≤ suc (length (nonempty ws))
unfolding nonempty
length-onto_head-le c [] = omega arith
length-onto_head-le c ([] ∷ ws) = omega arith
length-onto_head-le c ((d ∷ w) ∷ ws) = omega arith

-- There are no more pieces than bytes.
pub length-split-le : (sep : ℕ) (s : Str) → length (nonempty (split sep s)) ≤ length s
unfolding split nonempty
length-split-le sep [] = omega arith
length-split-le sep (c ∷ s) =
    ground (arith, length-split-le sep s, length-onto_head-le c (split sep s))

pub index_of-append : (c : ℕ) (w s : Str) → Lacks c w → index_of c (w ++ c ∷ s) ≡ some (length w)
unfolding index_of
index_of-append c [] s h = ground arith
index_of-append c (d ∷ w) s h = ground (arith, index_of-append c w s h.1)

pub split-Lacks : (sep : ℕ) (s : Str) → Lacks sep s → split sep s ≡ s ∷ []
unfolding split
split-Lacks sep [] h = refl
split-Lacks sep (c ∷ s) h = ground (arith, split-Lacks sep s h.1)
