-- ===== src/Exp/Scan/Ends.antt =====
-- The fuel of the loop of `eval` in src/src/exp.c, and of its calls on the texts of macros.
use dasm_dillon_code_sourcef.Common.{ℕ, ◌≡◌, List, [], Run, ok, fault, out_of_fuel}
use dasm_dillon_code_sourcef.Symbols.{Globals}
use dasm_dillon_code_sourcef.Exp.Machine.{Machine}
use dasm_dillon_code_sourcef.Exp.Machine.Ends.{Stops}
use dasm_dillon_code_sourcef.Exp.Scan.{Scan, Nested}

-- Where the run is out of fuel, there is an excuse.
abbrev pub Excuse {ℓ} : {A : Type ℓ} → Type 0 → Run A → Type 0
Excuse E (ok a) = Unit
Excuse E fault = Unit
Excuse E out_of_fuel = E

pub data Excused {ℓ} {A : Type ℓ} (E : Type 0) (r : Run A) : Type 0 where
  excused : Excuse E r → Excused E r

-- a call of `eval` on the text of a macro that does not come to an end
abbrev pub Stuck : Nested → Type 0
Stuck nested = (text : List ℕ) × (m : Machine) × (g : Globals) × (nested text m g ≡ out_of_fuel)

module _ (nested : Nested) where
  -- A run of the loop has read its text, unless it meets a fault or a call on a macro that does not end.
  abbrev pub IsRead : Run Scan → Type 0
  IsRead (ok t) = t.text ≡ []
  IsRead fault = Unit
  IsRead out_of_fuel = Stuck nested
