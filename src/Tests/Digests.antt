-- ===== src/Tests/Digests.antt =====
-- Digests at work: cumulative ones, one read from text, and paranoid ones of two and of one buffer.
use mathlib.Core.List.Permᴰ.{swap}
use mathlib.Core.Path.{subst}
use rmlint.Common.{
  Bool-cases, inl, inr, ==_iff, ◌≢◌, ◌≡◌, ◌↔◌, refl, true, [], ◌∷◌, ◌++◌, none, some, ◌==◌,
  if◌then◌else◌, arith,
}
use rmlint.Cfg.{Bytes}
use rmlint.Checksum.Cumulative.{cumulative_updates, cumulative_bytes}
use rmlint.Checksum.Cumulative.Order.{cumulative_updates-perm}
use rmlint.Checksum.Hex.{hexstring, ext_update, ext_update-hexstring}
use rmlint.Checksum.Paranoid.{Paranoid, Digests, paranoid_new, buffered_update, paranoid_equal}
use rmlint.Checksum.Paranoid.Twins.{IsMatched, buffered_update-IsMatched}
use rmlint.Checksum.Paranoid.Equal.{IsFaithful, paranoid_equal-buffers}

abbrev one_input : Bytes
one_input = 1 ∷ 2 ∷ 3 ∷ 4 ∷ 5 ∷ 6 ∷ 7 ∷ 8 ∷ []

abbrev other_input : Bytes
other_input = 8 ∷ 7 ∷ 6 ∷ 5 ∷ 4 ∷ 3 ∷ 2 ∷ 1 ∷ []

cumulative_updates-perm_example :
    cumulative_updates none (one_input ∷ other_input ∷ [])
    ≡ cumulative_updates none (other_input ∷ one_input ∷ [])
unfolding cumulative_bytes
cumulative_updates-perm_example =
    cumulative_updates-perm 8 (one_input ∷ other_input ∷ []) (other_input ∷ one_input ∷ [])
      ∣ swap refl refl ∣₁ refl

-- Digest 1 has two buffers; digest 2 has the first of them and follows digest 1.
abbrev twins : Digests
twins d =
    if d == 1
    then record paranoid_new {
      buffers = one_input ∷ other_input ∷ [];
      shadow_hash = some (one_input ++ other_input);
    }
    else record paranoid_new {
      buffers = one_input ∷ [];
      shadow_hash = some one_input;
      twin_candidate = some 1;
      twin_passed = 1;
    }

twins-IsMatched : IsMatched twins (twins 2)
twins-IsMatched = record {
  follows = ((other_input ∷ [], refl), refl);
  hashed = refl;
  no_rejects = refl;
}

buffered_update-IsMatched_example :
    (r : Paranoid) × (buffered_update twins other_input (twins 2) ≡ some r)
    × IsMatched twins r
    × (r.buffers ≡ one_input ∷ other_input ∷ [])
buffered_update-IsMatched_example =
    buffered_update-IsMatched twins other_input (twins 2) twins-IsMatched
      (record { followed = omega arith; sent = tt })

-- Digests 1 and 2 have the same buffer, and the second one follows the first; digest 3 has another
-- buffer, and rejected digest 1.
abbrev equal_twins : Digests
equal_twins d = record paranoid_new {
  buffers = if d == 3 then other_input ∷ [] else one_input ∷ [];
  shadow_hash = none;
  twin_candidate = if d == 2 then some 1 else none;
  twin_passed = if d == 2 then 1 else 0;
  rejects = if d == 3 then 1 ∷ [] else [];
}

equal_twins-IsFaithful : IsFaithful equal_twins (equal_twins 1)
equal_twins-IsFaithful = record { follows = tt; differ = λ r e. cc }

rejecting-IsFaithful : IsFaithful equal_twins (equal_twins 3)
rejecting-IsFaithful = record {
  follows = tt;
  differ = λ r e. elim (Bool-cases (1 == r)) [
    | inl one ↦
        subst (λ n. (equal_twins n).buffers ≢ (equal_twins 3).buffers) ((==_iff 1 r).0 one)
          (λ same. cc)
    | inr other ↦ absurd (ground (arith, e, other))
  ];
}

paranoid_equal-buffers_example :
    (paranoid_equal (λ bytes. bytes) equal_twins 1 3 ≡ true)
    ↔ ((equal_twins 1).buffers ≡ (equal_twins 3).buffers)
paranoid_equal-buffers_example =
    paranoid_equal-buffers (λ bytes. bytes) equal_twins 1 3 equal_twins-IsFaithful
      rejecting-IsFaithful (omega arith) refl

ext_update-hexstring_example : ext_update (hexstring (0 ∷ 171 ∷ 255 ∷ [])) ≡ 0 ∷ 171 ∷ 255 ∷ []
ext_update-hexstring_example =
    ext_update-hexstring (0 ∷ 171 ∷ 255 ∷ []) (omega arith, (omega arith, (omega arith, tt)))
      (omega arith)
