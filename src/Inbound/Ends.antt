-- ===== src/Inbound/Ends.antt =====
-- How a step ends: what holds when it returns, and what when it throws.
use whatsapp_os.Prelude.{Bool, true, false}
use whatsapp_os.Prelude.Result.{ok, err}
use whatsapp_os.Inbound.{World, Step, and_then, write}

abbrev pub Ends : {A : Type 0} → (A → World → Type 0) → (World → Type 0) → Step A → Type 0
Ends P E (ok value, world) = P value world
Ends P E (err thrown, world) = E world

pub and_then-Ends :
    {A B : Type 0} (P : A → World → Type 0) (Q : B → World → Type 0) (E : World → Type 0)
    (step : Step A) (rest : A → World → Step B)
    → Ends P E step
    → ((value : A) (world : World) → P value world → Ends Q E (rest value world))
    → Ends Q E (and_then step rest)
and_then-Ends P Q E (ok value, world) rest ends next = next value world ends
and_then-Ends P Q E (err thrown, world) rest ends next = ends

pub write-Ends :
    {A : Type 0} (P : A → World → Type 0) (E : World → Type 0) (refused : Bool) (value : A)
    (world after : World)
    → P value after
    → E world
    → Ends P E (write refused value world after)
write-Ends P E true value world after done thrown = thrown
write-Ends P E false value world after done thrown = done
