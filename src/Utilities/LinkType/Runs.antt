-- ===== src/Utilities/LinkType/Runs.antt =====
-- What rm_offset_get_from_fd of lib/utilities.c has walked over: runs of extents.
use mathlib.Core.Path.{subst}
use rmlint.Common.{
  ℕ, zero, suc, ◌+◌, ◌-◌, ◌%◌, ◌^◌, ◌<◌, ◌≡◌, refl, sym, Bool, true, false, ◌||◌, Option, none,
  some, ◌==◌, ==_iff, arith, Bool-cases, Option-cases, inl, inr,
}
use rmlint.Utilities.Offset.{
  Extent, Fiemap, IsFiemap, Offset, is_apart, end_of, with_extent, read_extents, offset_get_from_fd,
}

-- What is read from an offset on, extent by extent, up to another offset: each extent stands on the disk
-- at the same distance from its place in the file as `start` from `logical`, by 64-bit numbers. Whether
-- the last of them is marked as the file's last one stands at the end.
pub data Run (fiemap : Fiemap) (start logical : ℕ) : ℕ → ℕ → Bool → Type 0 where
  stops : {current : ℕ} → Run fiemap start logical current current false
  closes :
      {current : ℕ} (e : Extent)
      → fiemap current ≡ some (some e)
      → (e.physical + logical) % 2 ^ 64 ≡ (start + e.logical) % 2 ^ 64
      → e.last ≡ true
      → Run fiemap start logical current (end_of e) true
  reads :
      {current next : ℕ} {last : Bool} (e : Extent)
      → fiemap current ≡ some (some e)
      → (e.physical + logical) % 2 ^ 64 ≡ (start + e.logical) % 2 ^ 64
      → Run fiemap start logical (end_of e) next last
      → Run fiemap start logical current next last

-- What the walk has found, from an offset on.
abbrev pub Runs : Fiemap → ℕ → Option Offset → Type 0
Runs fiemap current none = Unit
Runs fiemap current (some o) = Run fiemap o.start o.logical current o.next o.is_last

-- What the walk knows of the extent that it read before.
abbrev Placed : Option Extent → Offset → Type 0
Placed none o = o.is_last ≡ false
Placed (some p) o =
    (o.is_last ≡ false)
    × (p.logical < 2 ^ 64)
    × ((p.physical + o.logical) % 2 ^ 64 ≡ (o.start + p.logical) % 2 ^ 64)

-- An extent that is not apart stands at the distance of the one before.
dense :
    (p e : Extent) (start logical : ℕ)
    → p.logical < 2 ^ 64
    → (p.physical + logical) % 2 ^ 64 ≡ (start + p.logical) % 2 ^ 64
    → is_apart (some p) e ≡ false
    → (e.physical + logical) % 2 ^ 64 ≡ (start + e.logical) % 2 ^ 64
unfolding is_apart
dense p e start logical word placed near =
    let jump : (e.physical == (p.physical + e.logical + 2 ^ 64 - p.logical) % 2 ^ 64) ≡ true =
      ground (arith, near) in
    let eq : e.physical ≡ (p.physical + e.logical + 2 ^ 64 - p.logical) % 2 ^ 64 =
      (==_iff e.physical ((p.physical + e.logical + 2 ^ 64 - p.logical) % 2 ^ 64)).0 jump in
    omega (arith, eq, word, placed)

-- The walk goes on at the same distance.
abbrev Continues : Fiemap → ℕ → Offset → Option Offset → Type 0
Continues fiemap current o none = Unit
Continues fiemap current o (some r) =
    (r.start ≡ o.start)
    × (r.logical ≡ o.logical)
    × Run fiemap o.start o.logical current r.next r.is_last

halts :
    (fiemap : Fiemap) (current start logical : ℕ) (last : Bool)
    → last ≡ false
    → Run fiemap start logical current current last
halts fiemap current start logical true e = cc
halts fiemap current start logical false e = stops

reads_last :
    (fiemap : Fiemap) (current start logical : ℕ) (e : Extent) (last : Bool)
    → fiemap current ≡ some (some e)
    → (e.physical + logical) % 2 ^ 64 ≡ (start + e.logical) % 2 ^ 64
    → e.last ≡ last
    → Run fiemap start logical current (end_of e) last
reads_last fiemap current start logical e true there placed l = closes e there placed l
reads_last fiemap current start logical e false there placed l = reads e there placed stops

Continues-reads :
    (fiemap : Fiemap) (current : ℕ) (e : Extent) (o : Offset) (r : Option Offset)
    → fiemap current ≡ some (some e)
    → (e.physical + o.logical) % 2 ^ 64 ≡ (o.start + e.logical) % 2 ^ 64
    → Continues fiemap (end_of e) o r
    → Continues fiemap current o r
Continues-reads fiemap current e o none there placed c = tt
Continues-reads fiemap current e o (some r) there placed c = (c.0, c.1, reads e there placed c.2)

read_extents-Continues :
    (fiemap : Fiemap)
    → IsFiemap fiemap
    → (n : ℕ) (p : Extent) (o : Offset) → Placed (some p) o
    → Continues fiemap o.next o (read_extents fiemap n (some p) o)
unfolding read_extents with_extent
read_extents-Continues fiemap l zero p o placed = tt
read_extents-Continues fiemap l (suc n) p o placed =
    let stop : Continues fiemap o.next o (some o) =
      (refl, refl, halts fiemap o.next o.start o.logical o.is_last placed.0) in
    elim (Option-cases (fiemap o.next)) [
      | inl e ↦ rw (e, Continues) stop
      | inr (none, e) ↦ rw (e, Continues) stop
      | inr (some x, e) ↦ elim (Bool-cases (is_apart (some p) x)) [
        | inl apart ↦ rw (e, apart, Continues) stop
        | inr near ↦
            let here = dense p x o.start o.logical placed.1 placed.2 near in
            let mark : x.last ≡ (o.is_last || x.last) = ground (arith, placed.0) in
            elim (Bool-cases (x.last || (x.extent_length == 0))) [
              | inl done ↦
                  rw (e, near, done, Continues)
                    (
                      refl,
                      refl,
                      reads_last fiemap o.next o.start o.logical x (o.is_last || x.last) e here
                          mark,
                    )
              | inr longer ↦
                  rw (e, near, longer, Continues)
                    (Continues-reads fiemap o.next x o
                      (read_extents fiemap n (some x) (with_extent (some p) x o)) e here
                      (read_extents-Continues fiemap l n x (with_extent (some p) x o) (
                        ground (arith, placed.0, longer),
                        omega (arith, l.bounded o.next x e),
                        here,
                      )))
            ]
      ]
    ]

same_run :
    (fiemap : Fiemap) (current : ℕ) (o : Offset) (r : Option Offset)
    → Continues fiemap current o r
    → Runs fiemap current r
same_run fiemap current o none c = tt
same_run fiemap current o (some r) c =
    subst (λ s. Run fiemap s r.logical current r.next r.is_last) (sym c.0)
      (subst (λ k. Run fiemap o.start k current r.next r.is_last) (sym c.1) c.2)

first-Runs :
    (fiemap : Fiemap)
    → IsFiemap fiemap
    → (n current : ℕ)
    → Runs fiemap current (
        read_extents fiemap n none
          (record { start = 0; next = current; logical = 0; is_last = false }))
unfolding read_extents with_extent is_apart
first-Runs fiemap l zero current = tt
first-Runs fiemap l (suc n) current = elim (Option-cases (fiemap current)) [
  | inl e ↦ rw (e, Runs) stops
  | inr (none, e) ↦ rw (e, Runs) stops
  | inr (some x, e) ↦ elim (Bool-cases (x.last || (x.extent_length == 0))) [
    | inl done ↦
        rw (e, done, Runs) (reads_last fiemap current x.physical x.logical x x.last e refl refl)
    | inr longer ↦
        let o : Offset = record {
          start = x.physical;
          next = end_of x;
          logical = x.logical;
          is_last = x.last;
        } in
        rw (e, longer, Runs)
          (same_run fiemap current o (read_extents fiemap n (some x) o) (
            Continues-reads fiemap current x o (read_extents fiemap n (some x) o) e refl (
              read_extents-Continues fiemap l n x o
                (ground (arith, longer), omega (arith, l.bounded current x e), refl))))
  ]
]

-- What rm_offset_get_from_fd answers is a run of extents.
pub offset_get_from_fd-Runs :
    (fiemap : Fiemap)
    → IsFiemap fiemap
    → (current : ℕ) → Runs fiemap current (offset_get_from_fd fiemap current)
offset_get_from_fd-Runs fiemap l current =
    unfold offset_get_from_fd in first-Runs fiemap l (2 ^ 64) current
