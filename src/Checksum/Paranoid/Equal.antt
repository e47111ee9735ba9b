-- ===== src/Checksum/Paranoid/Equal.antt =====
-- The comparison of paranoid digests (rm_digest_equal of lib/checksum.c).
use mathlib.Core.List.{append-nil}
use rmlint.Common.{
  ◌<◌, ◌≡◌, ◌≢◌, ◌==◌, any, refl, sym, ap, ◌∙◌, true, false, List, [], ◌∷◌, ◌++◌, Option, none,
  some, ==_iff, ◌↔◌, length, is_empty, arith, length-append, Bool-cases, inl, inr,
}
use rmlint.Cfg.{Bytes}
use rmlint.Trie.Laws.{bytes_equal_refl, bytes_equal→eq}
use rmlint.Checksum.Paranoid.{DigestRef, Paranoid, Digests, buffers_equal, is_ref, paranoid_equal}
use rmlint.Checksum.Paranoid.Twins.{FollowsTwin}

buffers_equal_lem : (as_ bs : List Bytes) → (buffers_equal as_ bs ≡ true) ↔ (as_ ≡ bs)
unfolding buffers_equal
buffers_equal_lem [] [] = ((λ e. refl), (λ e. refl))
buffers_equal_lem [] (b ∷ bs) = ((λ e. cc), (λ e. cc))
buffers_equal_lem (a ∷ as_) [] = ((λ e. cc), (λ e. cc))
buffers_equal_lem (a ∷ as_) (b ∷ bs) =
    ground
      (arith, buffers_equal_lem as_ bs, bytes_equal→eq a b, bytes_equal_refl a, bytes_equal_refl b)

prefix_equal :
    (own all : List Bytes)
    → ((rest : List Bytes) × (all ≡ own ++ rest))
    → length all ≡ length own
    → all ≡ own
prefix_equal own all ([], e) n = e ∙ append-nil own
prefix_equal own all (x ∷ rest, e) n =
    absurd (omega (arith, ap length e, length-append own (x ∷ rest), n))

followed_buffers :
    (digests : Digests) (p : Paranoid) (o : Option DigestRef) (b : DigestRef)
    → FollowsTwin digests p o
    → is_ref b o ≡ true
    → (rest : List Bytes) × ((digests b).buffers ≡ p.buffers ++ rest)
followed_buffers digests p none b f e = cc
followed_buffers digests p (some t) b f e =
    (f.0.0, ap (λ d. (digests d).buffers) (sym ((==_iff t b).0 e)) ∙ f.0.1)

nonempty : (l : List Bytes) → 0 < length l → is_empty l ≡ false
nonempty [] h = absurd (omega arith)
nonempty (x ∷ l) h = refl

-- What a digest notes of others is true: its twin candidate begins with its buffers, and no digest
-- that it rejected has the same buffers.
pub record IsFaithful (digests : Digests) (p : Paranoid) : Type 0 where
  pub follows : FollowsTwin digests p p.twin_candidate
  pub differ :
      (r : DigestRef) → any (λ q. q == r) p.rejects ≡ true → (digests r).buffers ≢ p.buffers

-- Two digests compare equal exactly if all their buffers are the same: the shortcuts by twin candidates
-- and by rejects decide as the buffers would. This is for digests with the same number of buffers, at
-- least one, whose twin candidates begin with their buffers and whose rejects have other buffers.
pub paranoid_equal-buffers :
    (xxhash : Bytes → Bytes) (digests : Digests) (a b : DigestRef)
    → IsFaithful digests (digests a)
    → IsFaithful digests (digests b)
    → 0 < length (digests a).buffers
    → length (digests b).buffers ≡ length (digests a).buffers
    → (paranoid_equal xxhash digests a b ≡ true) ↔ ((digests a).buffers ≡ (digests b).buffers)
unfolding paranoid_equal
paranoid_equal-buffers xxhash digests a b ma mb some_ same =
    let pa = digests a in
    let pb = digests b in
    let full = nonempty pa.buffers some_ in
    elim (Bool-cases (is_ref b pa.twin_candidate)) [
      | inl twin ↦
          let e =
            prefix_equal pa.buffers pb.buffers
              (followed_buffers digests pa pa.twin_candidate b ma.follows twin) same in
          rw (full, twin) ((λ t. sym e), (λ t. refl))
      | inr no_twin ↦ elim (Bool-cases (is_ref a pb.twin_candidate)) [
        | inl twin ↦
            let e =
              prefix_equal pb.buffers pa.buffers
                (followed_buffers digests pb pb.twin_candidate a mb.follows twin) (sym same) in
            rw (full, no_twin, twin) ((λ t. e), (λ t. refl))
        | inr neither ↦ elim (Bool-cases (any (λ r. r == b) pa.rejects)) [
          | inl rejected ↦
              rw (full, no_twin, neither, rejected)
                ((λ t. cc), (λ e. absurd (ma.differ b rejected (sym e))))
          | inr kept ↦ elim (Bool-cases (any (λ r. r == a) pb.rejects)) [
            | inl rejected ↦
                rw (full, no_twin, neither, kept, rejected)
                  ((λ t. cc), (λ e. absurd (mb.differ a rejected e)))
            | inr unknown ↦
                rw (full, no_twin, neither, kept, unknown) (buffers_equal_lem pa.buffers pb.buffers)
          ]
        ]
      ]
    ]
