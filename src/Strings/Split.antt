-- ===== src/Strings/Split.antt =====
-- `strings.Split` and `strings.Join` undo each other.
use terraform_aws_consul_lam.Prelude.{ℕ, List, [], ◌∷◌, ◌++◌, Text, ◌≡◌, ◌≢◌, refl, All, arith}
use terraform_aws_consul_lam.Strings.{split, join, prepend}

abbrev pub Lacks : ℕ → Text → Type 0
Lacks b = All (λ c. c ≢ b)

pub split-ne-nil : (sep : ℕ) (s : Text) → split sep s ≢ []
unfolding split
split-ne-nil sep [] = λ h. cc
split-ne-nil sep (c ∷ s) = ground (arith, split-ne-nil sep s)

join-prepend : (sep c : ℕ) (ps : List Text) → ps ≢ [] → join sep (prepend c ps) ≡ c ∷ join sep ps
unfolding join prepend
join-prepend sep c [] h = absurd (h refl)
join-prepend sep c (p ∷ []) h = refl
join-prepend sep c (p ∷ q ∷ ps) h = refl

join-cons_nil : (sep : ℕ) (ps : List Text) → ps ≢ [] → join sep ([] ∷ ps) ≡ sep ∷ join sep ps
unfolding join
join-cons_nil sep [] h = absurd (h refl)
join-cons_nil sep (p ∷ ps) h = refl

-- Joining the parts of a split gives the text back.
pub join-split : (sep : ℕ) (s : Text) → join sep (split sep s) ≡ s
unfolding split
join-split sep [] = unfold join in refl
join-split sep (c ∷ s) = ground (
  arith,
  join-split sep s,
  split-ne-nil sep s,
  join-prepend sep c (split sep s),
  join-cons_nil sep (split sep s),
)

-- A text without the separator is one part.
pub split-Lacks : (sep : ℕ) (s : Text) → Lacks sep s → split sep s ≡ s ∷ []
unfolding split prepend
split-Lacks sep [] _ = refl
split-Lacks sep (c ∷ s) (h, hs) = ground (arith, split-Lacks sep s hs)

-- A part without the separator is split off.
pub split-append :
    (sep : ℕ) (p s : Text) → Lacks sep p → split sep (p ++ (sep ∷ s)) ≡ p ∷ split sep s
unfolding split prepend
split-append sep [] s _ = ground arith
split-append sep (c ∷ p) s (h, hp) = ground (arith, split-append sep p s hp)

-- Splitting a join gives the parts back, if there is a part and none holds the separator.
pub split-join :
    (sep : ℕ) (ps : List Text) → ps ≢ [] → All (Lacks sep) ps → split sep (join sep ps) ≡ ps
unfolding join
split-join sep [] h _ = absurd (h refl)
split-join sep (p ∷ []) _ (hp, _) = split-Lacks sep p hp
split-join sep (p ∷ q ∷ ps) _ (hp, hps) =
    let ih = split-join sep (q ∷ ps) (λ h. cc) hps in
    cc (split-append sep p (join sep (q ∷ ps)) hp, ih)

-- Texts that lack the separator are the parts of one join only.
pub join-injective :
    (sep : ℕ) (ps qs : List Text)
    → ps ≢ []
    → qs ≢ []
    → All (Lacks sep) ps
    → All (Lacks sep) qs
    → join sep ps ≡ join sep qs
    → ps ≡ qs
join-injective sep ps qs np nq hp hq e = cc (split-join sep ps np hp, split-join sep qs nq hq)

-- The parts before the last are found again, whatever the last part holds.
pub split-join_last :
    (sep : ℕ) (ps : List Text) (last : Text)
    → All (Lacks sep) ps
    → split sep (join sep (ps ++ (last ∷ []))) ≡ ps ++ split sep last
unfolding join
split-join_last sep [] last _ = refl
split-join_last sep (p ∷ []) last (hp, _) = split-append sep p last hp
split-join_last sep (p ∷ q ∷ ps) last (hp, hps) =
    let ih = split-join_last sep (q ∷ ps) last hps in
    cc (split-append sep p (join sep (q ∷ (ps ++ (last ∷ [])))) hp, ih)

pub split-injective : (sep : ℕ) (s t : Text) → split sep s ≡ split sep t → s ≡ t
split-injective sep s t h = cc (join-split sep s, join-split sep t)
