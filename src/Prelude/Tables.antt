-- ===== src/Prelude/Tables.antt =====
-- A `Map` keyed by text where the code never reads its order: the function that looks a key up.
use Prim.Native.String.{String}
use mathlib.Core.Option.{Option, none, some}
use text.Mathlib.Text.{◌==◌}
use tslock.Prelude.Tests.{if◌then◌else◌}

abbrev pub Table {ℓ} : Type ℓ → Type ℓ
Table V = String → Option V

abbrev pub empty {ℓ} : {V : Type ℓ} → Table V
empty j = none

-- m.set(k, v)
abbrev pub put {ℓ} : {V : Type ℓ} → Table V → String → V → Table V
put m k v j = if k == j then some v else m j

-- m.delete(k)
abbrev pub remove {ℓ} : {V : Type ℓ} → Table V → String → Table V
remove m k j = if k == j then none else m j
