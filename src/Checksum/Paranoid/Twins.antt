-- ===== src/Checksum/Paranoid/Twins.antt =====
-- The twin candidates of a paranoid digest.
use mathlib.Core.List.{append_assoc, append-nil}
use mathlib.Core.Path.{ap₂}
use rmlint.Common.{
  ℕ, ◌+◌, ◌≤◌, ◌≡◌, refl, sym, ap, ◌∙◌, Bool, true, false, List, [], ◌∷◌, ◌++◌, Option, none, some,
  if◌then◌else◌, All, length, is_some, is_none, get_elem?, arith, length-append, Bool-cases,
  Option-cases, inl, inr,
}
use rmlint.Cfg.{Bytes}
use rmlint.Preprocess.Cluster.{bytes_equal}
use rmlint.Trie.Laws.{bytes_equal→eq}
use rmlint.Checksum.Paranoid.{
  DigestRef, Paranoid, Digests, check_next, running_check, same_so_far, reject, find_twin,
  fill_twin, append_buffer, buffered_update, more_hash, then_fill,
}

-- The buffers of the candidate, where there is one, begin with one's own, and the pointer stands behind.
abbrev pub FollowsTwin : Digests → Paranoid → Option DigestRef → Type 0
FollowsTwin digests p none = Unit
FollowsTwin digests p (some t) =
    ((rest : List Bytes) × ((digests t).buffers ≡ p.buffers ++ rest))
    × (p.twin_passed ≡ length p.buffers)

pub record IsMatched (digests : Digests) (p : Paranoid) : Type 0 where
  pub follows : FollowsTwin digests p p.twin_candidate
  pub hashed : is_some p.shadow_hash ≡ true
  pub no_rejects : p.rejects ≡ []

-- The candidate followed and those sent have at least n buffers.
abbrev pub HasLong : Digests → ℕ → Option DigestRef → Type 0
HasLong digests n none = Unit
HasLong digests n (some t) = n ≤ length (digests t).buffers

pub record HasLongTwins (digests : Digests) (n : ℕ) (p : Paranoid) : Type 0 where
  pub followed : HasLong digests n p.twin_candidate
  pub sent : All (λ c. n ≤ length (digests c).buffers) p.incoming

get_elem?-append :
    (own rest : List Bytes) (b : Bytes) → get_elem? (own ++ b ∷ rest) (length own) ≡ some b
get_elem?-append [] rest b = refl
get_elem?-append (x ∷ own) rest b = get_elem?-append own rest b

-- what the comparison with all of one's own buffers says
abbrev pub SameSoFar : List Bytes → List Bytes → Option Bool → Type 0
SameSoFar twin own none = ⊥
SameSoFar twin own (some true) = (rest : List Bytes) × (twin ≡ own ++ rest)
SameSoFar twin own (some false) = Unit

same_so_far_lem :
    (twin own : List Bytes) → length own ≤ length twin → SameSoFar twin own (same_so_far twin own)
unfolding same_so_far
same_so_far_lem twin [] h = (twin, refl)
same_so_far_lem [] (b ∷ own) h = omega arith
same_so_far_lem (t ∷ twin) (b ∷ own) h = elim (Bool-cases (bytes_equal t b)) [
  | inl same ↦ rw same (
      cons_same (bytes_equal→eq t b same) (same_so_far twin own)
        (same_so_far_lem twin own (omega arith)))
  | inr other ↦ rw other tt
]
  where
    cons_same : t ≡ b → (o : Option Bool) → SameSoFar twin own o → SameSoFar (t ∷ twin) (b ∷ own) o
    cons_same e none s = s
    cons_same e (some true) s = (s.0, ap₂ (λ x l. x ∷ l) e s.1)
    cons_same e (some false) s = tt

reject_hashed : (c : DigestRef) (p : Paranoid) → is_some p.shadow_hash ≡ true → reject c p ≡ p
reject_hashed c p h = rw (not_none p.shadow_hash h) refl
  where
    not_none : (o : Option Bytes) → is_some o ≡ true → is_none o ≡ false
    not_none none h = cc
    not_none (some b) h = refl

-- What the search for a new candidate gives.
abbrev Finds : Digests → Paranoid → Option Paranoid → Type 0
Finds digests p o =
    (r : Paranoid) × (o ≡ some r)
    × IsMatched digests r
    × (r.buffers ≡ p.buffers)
    × (r.shadow_hash ≡ p.shadow_hash)

find_twin_lem :
    (digests : Digests) (queue : List DigestRef) (p : Paranoid)
    → is_some p.shadow_hash ≡ true
    → p.rejects ≡ []
    → p.twin_candidate ≡ none
    → All (λ c. length p.buffers ≤ length (digests c).buffers) queue
    → Finds digests p (find_twin digests queue p)
unfolding find_twin
find_twin_lem digests [] p hashed clean free long = (
  record p { incoming = [] },
  refl,
  record { follows = rw free tt; hashed = hashed; no_rejects = clean },
  refl,
  refl,
)
find_twin_lem digests (c ∷ queue) p hashed clean free long =
    go (same_so_far (digests c).buffers p.buffers)
      (same_so_far_lem (digests c).buffers p.buffers long.0)
      (find_twin_lem digests queue p hashed clean free long.1)
  where
    go :
        (o : Option Bool)
        → SameSoFar (digests c).buffers p.buffers o
        → Finds digests p (find_twin digests queue p)
        → Finds digests p (elim o [
          | none ↦ none
          | some same ↦
              let rest = find_twin digests queue (reject c p) in
              if same
              then some (record p {
                twin_candidate = some c;
                twin_passed = length p.buffers;
                incoming = queue;
              })
              else rest
        ])
    go none s ih = absurd s
    go (some true) s ih = (
      record p { twin_candidate = some c; twin_passed = length p.buffers; incoming = queue },
      refl,
      record { follows = (s, refl); hashed = hashed; no_rejects = clean },
      refl,
      refl,
    )
    go (some false) s ih = rw (reject_hashed c p hashed) ih

fill_twin_lem :
    (digests : Digests) (p : Paranoid)
    → IsMatched digests p
    → All (λ c. length p.buffers ≤ length (digests c).buffers) p.incoming
    → Finds digests p (fill_twin digests p)
unfolding fill_twin
fill_twin_lem digests p m long = elim (Option-cases p.twin_candidate) [
  | inl free ↦
      let test : is_some p.twin_candidate ≡ false = rw free refl in
      rw test (find_twin_lem digests p.incoming p m.hashed m.no_rejects free long)
  | inr (t, followed) ↦
      let test : is_some p.twin_candidate ≡ true = rw followed refl in
      rw test (p, refl, m, refl, refl)
]

more_hash_some : (b : Bytes) (o : Option Bytes) → is_some o ≡ true → is_some (more_hash b o) ≡ true
more_hash_some b none h = h
more_hash_some b (some s) h = refl

-- A twin with more buffers has a next one.
next_buffer :
    (all own rest : List Bytes)
    → all ≡ own ++ rest
    → length own + 1 ≤ length all
    → (x : Bytes) × (more : List Bytes) × (all ≡ own ++ x ∷ more)
next_buffer all own [] e long = absurd (omega (arith, ap length (e ∙ append-nil own), long))
next_buffer all own (x ∷ more) e long = (x, more, e)

-- What the running check gives, of a digest with one buffer more.
abbrev Checks : Digests → Bytes → Paranoid → Option Paranoid → Type 0
Checks digests b p o =
    (r : Paranoid) × (o ≡ some r)
    × IsMatched digests r
    × (r.buffers ≡ p.buffers ++ b ∷ [])
    × (r.incoming ≡ p.incoming)

check_some :
    (digests : Digests) (b : Bytes) (p : Paranoid) (t : DigestRef) (x : Bytes) (more : List Bytes)
    → p.twin_candidate ≡ some t
    → (digests t).buffers ≡ p.buffers ++ x ∷ more
    → p.twin_passed ≡ length p.buffers
    → is_some p.shadow_hash ≡ true
    → p.rejects ≡ []
    → Checks digests b p (check_next b (append_buffer b p) (some x))
unfolding check_next
check_some digests b p t x more e starts passed hashed clean =
    let hashed' = more_hash_some b p.shadow_hash hashed in
    let q = append_buffer b p in
    elim (Bool-cases (bytes_equal b x)) [
      | inl same ↦ rw same (
        record q { twin_passed = p.twin_passed + 1 },
        refl,
        record {
          follows = rw e (
            (
              more,
              starts
                  ∙ ap (λ y. p.buffers ++ y ∷ more) (sym (bytes_equal→eq b x same))
                  ∙ sym (append_assoc p.buffers (b ∷ []) more),
            ),
            omega (arith, passed, length-append p.buffers (b ∷ [])),
          );
          hashed = hashed';
          no_rejects = clean;
        },
        refl,
        refl,
      )
      | inr other ↦ rw other (
        record q { twin_candidate = none; twin_passed = 0 },
        refl,
        record { follows = tt; hashed = hashed'; no_rejects = clean },
        refl,
        refl,
      )
    ]

running_check_lem :
    (digests : Digests) (b : Bytes) (p : Paranoid) (o : Option DigestRef)
    → p.twin_candidate ≡ o
    → FollowsTwin digests p o
    → is_some p.shadow_hash ≡ true
    → p.rejects ≡ []
    → HasLong digests (length p.buffers + 1) o
    → Checks digests b p (running_check digests b (append_buffer b p) o)
unfolding running_check
running_check_lem digests b p none e follows hashed clean long = (
  append_buffer b p,
  refl,
  record { follows = rw e tt; hashed = more_hash_some b p.shadow_hash hashed; no_rejects = clean },
  refl,
  refl,
)
running_check_lem digests b p (some t) e follows hashed clean long =
    let next = next_buffer (digests t).buffers p.buffers follows.0.0 follows.0.1 long in
    let x = next.0 in
    let found : get_elem? (digests t).buffers p.twin_passed ≡ some x =
      ap₂ (λ l i. get_elem? l i) next.2 follows.1 ∙ get_elem?-append p.buffers next.1 x in
    rw found (check_some digests b p t x next.1 e next.2 follows.1 hashed clean)

-- An update with a buffer keeps a paranoid digest matched, if the candidate that it follows and those
-- that were sent have one buffer more than it has: it goes through without an access through NULL, the
-- digest has the buffer at its end, and the candidate that it then follows begins with its buffers.
pub buffered_update-IsMatched :
    (digests : Digests) (b : Bytes) (p : Paranoid)
    → IsMatched digests p
    → HasLongTwins digests (length p.buffers + 1) p
    → (r : Paranoid) × (buffered_update digests b p ≡ some r)
      × IsMatched digests r
      × (r.buffers ≡ p.buffers ++ b ∷ [])
unfolding buffered_update then_fill
buffered_update-IsMatched digests b p m long =
    let c =
      running_check_lem digests b p p.twin_candidate refl m.follows m.hashed m.no_rejects
        long.followed in
    let n : length p.buffers + 1 ≡ length c.0.buffers =
      omega (arith, ap length c.3, length-append p.buffers (b ∷ [])) in
    let sent : All (λ d. length c.0.buffers ≤ length (digests d).buffers) c.0.incoming =
      rw (c.4, ← n) long.sent in
    let f = fill_twin_lem digests c.0 c.2 sent in
    (f.0, ap (then_fill digests) c.1 ∙ f.1, f.2, f.3 ∙ c.3)
