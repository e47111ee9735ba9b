-- ===== src/Glib.antt =====
-- The functions of GLib that the modelled code calls and that are no containers: they are arguments
-- of the definitions. Lists stand for GLib's lists, queues and pointer arrays.
use mathlib.Core.List.{Perm}
use rmlint.Common.{ℕ, ◌≡◌, Bool, false, List, [], ◌∷◌, ◌++◌, All, length}
use rmlint.Common.Sign.{ℤ, pos, gt0, IsOrder}
use rmlint.Cfg.{Bytes}

-- g_ascii_strcasecmp and g_ascii_strncasecmp; a compiled GRegex is what g_regex_match says of a text.
pub record Glib : Type 0 where
  pub strcasecmp : Bytes → Bytes → ℤ
  pub strncasecmp : Bytes → Bytes → ℕ → ℤ

abbrev pub Pattern : Type 0
Pattern = Bytes → Bool

-- What GLib documents: the results order the strings, and g_ascii_strncasecmp looks at the first n
-- bytes only.
pub record IsGlib (g : Glib) : Type 0 where
  pub case_order : IsOrder g.strcasecmp
  pub prefix_order : (n : ℕ) → IsOrder (λ s t. g.strncasecmp s t n)
  pub prefix_only : (s t : Bytes) → g.strncasecmp s (s ++ t) (length s) ≡ pos 0

-- Each element is not after those behind it.
abbrev pub Ordered {ℓ} : {A : Type ℓ} → (A → A → ℤ) → List A → Type 0
Ordered c [] = Unit
Ordered c (x ∷ xs) = All (λ y. gt0 (c x y) ≡ false) xs × Ordered c xs

-- g_queue_sort and g_list_sort with a comparison function: the same elements, and in order if the
-- comparison is one.
pub record IsSort {ℓ} {A : Type ℓ} (sort : (A → A → ℤ) → List A → List A) : Type ℓ where
  pub perm : (c : A → A → ℤ) (xs : List A) → Perm (sort c xs) xs
  pub ordered : (c : A → A → ℤ) (xs : List A) → IsOrder c → Ordered c (sort c xs)
