-- ===== src/Raft/System/Ballots.antt =====
-- Who voted for whom in which term: a record of the votes that the proofs keep beside the system.
use pluggable_sharded_fault.Base.{
  ℕ, ◌≡◌, ◌≢◌, ◌&&◌, Option, none, some, ℤ, pos, minus_one, arith, eqb, eqb_ℤ, eqb_ℤ_iff,
  if◌then◌else◌, ◌⊎◌,
}

abbrev pub Ballots : Type 0
Ballots = ℕ → ℤ → Option ℕ

abbrev pub vote_id : Option ℕ → ℤ
vote_id none = minus_one
vote_id (some c) = pos c

unfoldable pub cast : Ballots → ℕ → ℤ → ℕ → Ballots
cast b i t c j u = if eqb i j && eqb_ℤ t u then some c else b j u

-- No vote that was cast is lost.
abbrev pub Extends : Ballots → Ballots → Type 0
Extends b b' = (i : ℕ) (t : ℤ) (c : ℕ) → b i t ≡ some c → b' i t ≡ some c

pub cast_self : (b : Ballots) (i : ℕ) (t : ℤ) (c : ℕ) → cast b i t c i t ≡ some c
unfolding cast
cast_self b i t c = ground (arith, eqb_ℤ_iff t t)

pub cast_ne_peer : (b : Ballots) (i j : ℕ) (t u : ℤ) (c : ℕ) → i ≢ j → cast b i t c j u ≡ b j u
unfolding cast
cast_ne_peer b i j t u c h = ground arith

pub cast_ne_term : (b : Ballots) (i j : ℕ) (t u : ℤ) (c : ℕ) → t ≢ u → cast b i t c j u ≡ b j u
unfolding cast
cast_ne_term b i j t u c h = ground (arith, eqb_ℤ_iff t u)

pub cast-Extends :
    (b : Ballots) (i : ℕ) (t : ℤ) (c : ℕ)
    → (b i t ≡ none) ⊎ (b i t ≡ some c)
    → Extends b (cast b i t c)
unfolding cast
cast-Extends b i t c free j u d h = ground (arith, eqb_ℤ_iff t u)
