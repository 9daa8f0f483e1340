-- ===== src/Shares/Tokens.antt =====
-- `get_token` takes back what is written with a backslash in front of each special character.
use net_mount.Base.{
  ℕ, ◌≡◌, ◌≢◌, refl, ap, List, [], ◌∷◌, ◌++◌, false, ◌||◌, ◌==◌, if◌then◌else◌, ==-refl, ==-of-ne,
  arith, Bool-cases, inl, inr,
}
use net_mount.Shares.{token_from, get_token}

-- A token as it is written in front of a delimiter.
abbrev pub escape_token : ℕ → List ℕ → List ℕ
escape_token delimiter [] = []
escape_token delimiter (c ∷ cs) =
    let rest = escape_token delimiter cs in
    if c == b'\\' || c == delimiter then b'\\' ∷ c ∷ rest else c ∷ rest

-- For a delimiter that is no backslash: a token whose backslashes and delimiters are written with a
-- backslash in front comes back as it was, and the rest begins at the delimiter behind it.
pub get_token-escape_token :
    (delimiter : ℕ) (token rest : List ℕ)
    → delimiter ≢ b'\\'
    → get_token delimiter (escape_token delimiter token ++ delimiter ∷ rest)
      ≡ (token, delimiter ∷ rest)
unfolding get_token token_from
get_token-escape_token delimiter [] rest ne =
    rw (==-of-ne delimiter b'\\' ne, ==-refl delimiter) refl
get_token-escape_token delimiter (c ∷ cs) rest ne =
    let ih = get_token-escape_token delimiter cs rest ne in
    elim (Bool-cases (c == b'\\' || c == delimiter)) [
      | inl special ↦ rw special (ap (λ (r : List ℕ × List ℕ). (c ∷ r.0, r.1)) ih)
      | inr plain ↦
          let no_backslash : (c == b'\\') ≡ false = ground (arith, plain) in
          let no_end : (c == delimiter) ≡ false = ground (arith, plain) in
          rw (plain, no_backslash, no_end) (ap (λ (r : List ℕ × List ℕ). (c ∷ r.0, r.1)) ih)
    ]
