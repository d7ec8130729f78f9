-- ===== src/Prelude/Codes.antt =====
-- Texts as lists of code points, and what follows a prefix.
use Prim.Native.Nat.{ℕ}
use Prim.Native.Char.{code}
use Prim.Native.String
use Prim.Native.String.{String}
use Prim.Native.String.append as append_clauses
use mathlib.Core.Path.{◌≡◌, ap}
use mathlib.Core.List.{List, [], ◌∷◌, ◌++◌}
use mathlib.Core.Option.{Option, none, some}
use ledgerops.Prelude.Tests.{eqb, if◌then◌else◌}

abbrev pub codes : String → List ℕ
codes String.[] = []
codes (String.◌∷◌ c s) = code c ∷ codes s

pub codes-append : (s t : String) → codes (Prim.Native.String.◌++◌ s t) ≡ codes s ++ codes t
codes-append String.[] t = ap codes (append_clauses.nil t)
codes-append (String.◌∷◌ c s) t =
    rw (append_clauses.cons c s t) (ap (λ cs. code c ∷ cs) (codes-append s t))

-- `strings.HasPrefix` and `strings.TrimPrefix`: what follows the prefix.
abbrev pub strip_prefix : String → String → Option String
strip_prefix String.[] s = some s
strip_prefix (String.◌∷◌ c p) String.[] = none
strip_prefix (String.◌∷◌ c p) (String.◌∷◌ d s) =
    let rest = strip_prefix p s in if eqb (code c) (code d) then rest else none
