-- ===== src/Shredder/Rejects/Held.antt =====
-- What a group and its rejects hold in lib/shredder.c while files are moved.
use rmlint.Common.{
  ℕ, ◌≤◌, ◌≡◌, refl, ◌∙◌, ap, false, List, [], ◌∷◌, ◌++◌, Option, none, some, ◌==◌, arith, count,
  count-append, Bool-cases, inl, inr,
}
use rmlint.Cfg.{RmCfg, DigestType}
use rmlint.Glib.{Glib}
use rmlint.File.Types.{FileRef, Heap, write_file}
use rmlint.File.Links.{without}
use rmlint.Shredder.Types.{finishing, ShredTag, GroupRef}
use rmlint.Shredder.Group.{Sifter, push_fields, push_named, count_file, group_new, hold}
use rmlint.Shredder.Rejects.{Split, take_out, without_held, transfer, create_rejects}
use rmlint.Shredder.Rejects.Counts.{next_basename_single, push_named_finishing, transfer_step}

-- The files that were pushed to the head of a queue, one after the other.
abbrev pub pushed_onto : List FileRef → List FileRef → List FileRef
pushed_onto [] acc = acc
pushed_onto (x ∷ xs) acc = pushed_onto xs (x ∷ acc)

-- No file has a cluster.
abbrev pub IsUnbundled : Heap → Type 0
IsUnbundled h = (i : FileRef) → (h.file i).cluster ≡ none

-- No file is in the list twice.
abbrev pub IsOnce : List FileRef → Type 0
IsOnce l = (i : FileRef) → count (λ x. x == i) l ≤ 1

pub without-append :
    (f : FileRef) (p rest : List FileRef)
    → count (λ x. x == f) p ≡ 0
    → without f (p ++ f ∷ rest) ≡ p ++ rest
without-append f [] rest e = ground arith
without-append f (x ∷ p) rest e = ground (arith, without-append f p rest)

IsUnbundled-push_fields :
    (r : GroupRef) (f : FileRef) (h : Heap) → IsUnbundled h → IsUnbundled (push_fields r f h)
unfolding push_fields write_file
IsUnbundled-push_fields r f h u i = elim (Bool-cases (i == f)) [
  | inl here ↦ rw here (u f)
  | inr there ↦ rw there (u i)
]

-- What the group and its rejects hold, in the state and after the loop.
pub record Holds (s : Split) (dest : Sifter) (kept moved : List FileRef) : Type 0 where
  pub rejects : s.rejects ≡ some dest
  pub group_held : s.group.held_files ≡ some kept
  pub dest_held : dest.group.held_files ≡ some moved
  pub status : dest.group.status ≡ finishing
  pub unbundled : IsUnbundled s.heap

-- one file is moved
pub transfer-Holds :
    (g : Glib) (cfg : RmCfg) (r : GroupRef) (f : FileRef) (s : Split) (dest : Sifter)
    (p rest acc : List FileRef)
    → Holds s dest (p ++ f ∷ rest) acc
    → count (λ x. x == f) p ≡ 0
    → (s' : Split) × (dest' : Sifter) × (transfer g cfg r f s.group dest s.heap ≡ some s')
      × (s'.heap ≡ push_fields r f s.heap)
      × Holds s' dest' (p ++ rest) (f ∷ acc)
unfolding take_out count_file
transfer-Holds g cfg r f s dest p rest acc h absent =
    let pushed = push_fields r f s.heap in
    let unbundled = IsUnbundled-push_fields r f s.heap h.unbundled in
    let (u, named) = next_basename_single g cfg pushed dest.group f (unbundled f) in
    let held = push_named_finishing cfg pushed f dest u h.status in
    (
      record {
        group = take_out f (pushed.file f) s.group;
        rejects = some (push_named cfg pushed [] f false dest u).0;
        heap = pushed;
      },
      (push_named cfg pushed [] f false dest u).0,
      transfer_step g cfg r f s.group dest s.heap u named,
      refl,
      record {
        rejects = refl;
        group_held = ap (without_held f) h.group_held ∙ ap some (without-append f p rest absent);
        dest_held = ap (λ x. x.0.group.held_files) held ∙ ap (hold f) h.dest_held;
        status = ap (λ x. x.0.group.status) held ∙ h.status;
        unbundled = unbundled;
      },
    )

pub IsOnce-tail :
    (p : List FileRef) (f : FileRef) (rest : List FileRef)
    → IsOnce (p ++ f ∷ rest)
    → IsOnce (p ++ rest)
IsOnce-tail p f rest once i =
    omega
      (arith, once i, count-append (λ x. x == i) p (f ∷ rest), count-append (λ x. x == i) p rest)

pub absent-of_once :
    (p : List FileRef) (f : FileRef) (rest : List FileRef)
    → IsOnce (p ++ f ∷ rest)
    → count (λ x. x == f) p ≡ 0
absent-of_once p f rest once = ground (arith, once f, count-append (λ x. x == f) p (f ∷ rest))

-- The rejects hold the files that were moved, the last one first; without any there are no rejects.
abbrev pub Rejected : Option Sifter → List FileRef → Type 0
Rejected o [] = o ≡ none
Rejected o (x ∷ l) =
    (dest : Sifter) × (o ≡ some dest) × (dest.group.held_files ≡ some (pushed_onto (x ∷ l) []))

module _ (page_size : ℕ) (type_of_digest : DigestType) (tag : ShredTag) where
  -- new rejects are empty
  pub create_rejects-Holds :
      (f : FileRef) (s : Split) (held : List FileRef)
      → s.group.held_files ≡ some held
      → s.group.status ≡ finishing
      → IsUnbundled s.heap
      → (dest : Sifter) × Holds (create_rejects page_size type_of_digest tag f s) dest held []
  unfolding create_rejects group_new write_file
  create_rejects-Holds f s held e status u = (
    _,
    record {
      rejects = refl;
      group_held = e;
      dest_held = refl;
      status = status;
      unbundled =
          λ i. elim (Bool-cases (i == f)) [ inl here ↦ rw here (u f) | inr there ↦ rw there (u i) ];
    },
  )
