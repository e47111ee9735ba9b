-- ===== src/Checksum/Paranoid.antt =====
-- The paranoid digest of lib/checksum.c: it keeps the data of a file in buffers and compares these.
-- A digest is known by its address; the queue of candidates is the list of what was sent so far.
pub mod Twins
pub mod Equal
use rmlint.Common.{
  ℕ, ◌+◌, Bool, true, false, ◌&&◌, ◌||◌, List, [], ◌∷◌, ◌++◌, Option, none, some, ◌==◌,
  if◌then◌else◌, any, length, is_some, is_none, get_elem?, is_empty,
}
use rmlint.Cfg.{Bytes}
use rmlint.Preprocess.Cluster.{bytes_equal}

abbrev pub DigestRef : Type 0
DigestRef = ℕ

-- RmParanoid. `shadow_hash` holds the bytes that were hashed; `twin_passed` says how far into the twin's
-- buffers twin_candidate_buffer points.
pub record Paranoid : Type 0 where
  pub buffers : List Bytes
  pub shadow_hash : Option Bytes
  pub twin_candidate : Option DigestRef
  pub twin_passed : ℕ
  pub rejects : List DigestRef
  pub incoming : List DigestRef

abbrev pub Digests : Type 0
Digests = DigestRef → Paranoid

-- rm_digest_paranoid_new
abbrev pub paranoid_new : Paranoid
paranoid_new = record {
  buffers = [];
  shadow_hash = some [];
  twin_candidate = none;
  twin_passed = 0;
  rejects = [];
  incoming = [];
}

-- rm_digest_send_match_candidate, to that digest
abbrev pub send_match_candidate : DigestRef → Paranoid → Paranoid
send_match_candidate c p = record p { incoming = p.incoming ++ c ∷ [] }

-- The running check of the new buffer against the twin's next one; `none` is the access through NULL.
unfoldable pub check_next : Bytes → Paranoid → Option Bytes → Option Paranoid
check_next buffer p none = none
check_next buffer p (some next) = some (
    if bytes_equal buffer next
    then record p { twin_passed = p.twin_passed + 1 }
    else record p { twin_candidate = none; twin_passed = 0 })

unfoldable pub running_check : Digests → Bytes → Paranoid → Option DigestRef → Option Paranoid
unfolding check_next
running_check digests buffer p none = some p
running_check digests buffer p (some t) =
    check_next buffer p (get_elem? (digests t).buffers p.twin_passed)

-- The comparison of a candidate's buffers with all of one's own; `none` if the candidate has too few.
unfoldable pub same_so_far : List Bytes → List Bytes → Option Bool
same_so_far twin [] = some true
same_so_far [] (b ∷ own) = none
same_so_far (t ∷ twin) (b ∷ own) =
    let rest = same_so_far twin own in if bytes_equal t b then rest else some false

-- A rejected candidate is noted only where there is no shadow hash.
abbrev pub reject : DigestRef → Paranoid → Paranoid
reject c p = if is_none p.shadow_hash then record p { rejects = c ∷ p.rejects } else p

-- The `while` loop over the candidates sent.
unfoldable pub find_twin : Digests → List DigestRef → Paranoid → Option Paranoid
unfolding same_so_far
find_twin digests [] p = some (record p { incoming = [] })
find_twin digests (c ∷ queue) p = elim (same_so_far (digests c).buffers p.buffers) [
  | none ↦ none
  | some same ↦
      let rest = find_twin digests queue (reject c p) in
      if same
      then some
          (record p { twin_candidate = some c; twin_passed = length p.buffers; incoming = queue })
      else rest
]

unfoldable pub fill_twin : Digests → Paranoid → Option Paranoid
unfolding find_twin
fill_twin digests p = if is_some p.twin_candidate then some p else find_twin digests p.incoming p

-- What a buffer adds to the data and to the shadow hash.
abbrev pub more_hash : Bytes → Option Bytes → Option Bytes
more_hash buffer none = none
more_hash buffer (some hashed) = some (hashed ++ buffer)

abbrev pub append_buffer : Bytes → Paranoid → Paranoid
append_buffer buffer p = record p {
  shadow_hash = more_hash buffer p.shadow_hash;
  buffers = p.buffers ++ buffer ∷ [];
}

unfoldable pub then_fill : Digests → Option Paranoid → Option Paranoid
unfolding fill_twin
then_fill digests none = none
then_fill digests (some p) = fill_twin digests p

-- rm_digest_paranoid_buffered_update
unfoldable pub buffered_update : Digests → Bytes → Paranoid → Option Paranoid
unfolding running_check then_fill
buffered_update digests buffer p =
    then_fill digests (running_check digests buffer (append_buffer buffer p) p.twin_candidate)

-- "manual check of all buffers"
unfoldable pub buffers_equal : List Bytes → List Bytes → Bool
buffers_equal [] [] = true
buffers_equal [] (b ∷ bs) = false
buffers_equal (a ∷ as_) [] = false
buffers_equal (a ∷ as_) (b ∷ bs) = bytes_equal a b && buffers_equal as_ bs

abbrev pub is_ref : DigestRef → Option DigestRef → Bool
is_ref r none = false
is_ref r (some t) = t == r

-- What the shadow hashes say, by xxhash.
abbrev pub shadow_equal : (Bytes → Bytes) → Option Bytes → Option Bytes → Bool
shadow_equal xxhash (some a) (some b) = bytes_equal (xxhash a) (xxhash b)
shadow_equal xxhash _ _ = false

-- rm_digest_equal of two paranoid digests
unfoldable pub paranoid_equal : (Bytes → Bytes) → Digests → DigestRef → DigestRef → Bool
unfolding buffers_equal
paranoid_equal xxhash digests a b =
    let pa = digests a in
    let pb = digests b in
    if is_empty pa.buffers
    then shadow_equal xxhash pa.shadow_hash pb.shadow_hash
    else if is_ref b pa.twin_candidate || is_ref a pb.twin_candidate
    then true
    else if any (λ r. r == b) pa.rejects || any (λ r. r == a) pb.rejects
    then false
    else buffers_equal pa.buffers pb.buffers
