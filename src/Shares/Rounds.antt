-- ===== src/Shares/Rounds.antt =====
-- The loop over the options comes to its end before its fuel does.
use net_mount.Base.{
  ℕ, zero, suc, ◌-◌, ◌≤◌, ◌≡◌, refl, List, [], ◌∷◌, Bool, true, false, ◌==◌, arith, length, drop,
  Bool-cases, inl, inr,
}
use net_mount.Drive.{is_empty}
use net_mount.Folder.{Share}
use net_mount.Shares.{
  Host, Parsed, refused, failed, parsed, then_parse, token_from, get_token, set_option,
  parse_options,
}

length-token_from :
    (escape : Bool) (delimiter : ℕ) (s : List ℕ)
    → length (token_from escape delimiter s).1 ≤ length s
unfolding token_from
length-token_from escape delimiter [] = omega arith
length-token_from true delimiter (c ∷ cs) = omega (arith, length-token_from false delimiter cs)
length-token_from false delimiter (c ∷ cs) =
    let ih = length-token_from (c == b'\\') delimiter cs in
    elim (Bool-cases (c == b'\\')) [
      | inl slash ↦ rw slash (omega (arith, length-token_from true delimiter cs))
      | inr other ↦ elim (Bool-cases (c == delimiter)) [
        | inl end_there ↦ rw (other, end_there) (omega arith)
        | inr plain ↦ rw (other, plain) (omega (arith, length-token_from false delimiter cs))
      ]
    ]

length-drop_one : (s : List ℕ) → length (drop 1 s) ≤ length s - 1
length-drop_one [] = omega arith
length-drop_one (c ∷ cs) = omega arith

then_parse_same :
    {A B : Type 0} (p : Parsed A) (f g : A → Parsed B)
    → ((a : A) → f a ≡ g a)
    → then_parse p f ≡ then_parse p g
then_parse_same refused f g same = refl
then_parse_same failed f g same = refl
then_parse_same (parsed a) f g same = same a

-- Any two amounts of fuel that are at least the length of the text give the same result: the loop has
-- come to its own end with both.
pub parse_options_enough :
    (host : Host) (fuel more : ℕ) (rest : List ℕ) (state : Share × Bool)
    → length rest ≤ fuel
    → length rest ≤ more
    → parse_options fuel host rest state ≡ parse_options more host rest state
unfolding parse_options get_token
parse_options_enough host zero zero rest (share, labelled) h g = refl
parse_options_enough host zero (suc more) [] (share, labelled) h g = refl
parse_options_enough host zero (suc more) (c ∷ cs) (share, labelled) h g = absurd (omega (arith, h))
parse_options_enough host (suc fuel) zero [] (share, labelled) h g = refl
parse_options_enough host (suc fuel) zero (c ∷ cs) (share, labelled) h g = absurd (omega (arith, g))
parse_options_enough host (suc fuel) (suc more) rest (share, labelled) h g =
    let at_value = (token_from false b'=' (drop 1 rest)).1 in
    let at_end = (token_from false b',' (drop 1 at_value)).1 in
    let shorter : length at_end ≤ length rest - 1 = omega (
      arith,
      length-token_from false b',' (drop 1 at_value),
      length-drop_one at_value,
      length-token_from false b'=' (drop 1 rest),
      length-drop_one rest,
    ) in
    elim (Bool-cases (is_empty (drop 1 rest))) [
      | inl over ↦ rw over refl
      | inr longer ↦ rw longer (
          then_parse_same (set_option host _ _ share) _ _ (λ next.
            parse_options_enough host fuel more at_end (next, _) (omega (arith, shorter, h))
              (omega (arith, shorter, g))))
    ]
