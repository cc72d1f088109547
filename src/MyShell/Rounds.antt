-- ===== src/MyShell/Rounds.antt =====
-- The loops of myShell/myshell3.c end: no line makes the shell itself run out of the fuel that it is given here.
use linux_system_code.Common.{◌≢◌}
use linux_system_code.Processes.{out_of_fuel, ending}
use linux_system_code.MyShell.{Result}
use linux_system_code.MyShell
use linux_system_code.MyShell.Execute.{Action}
use linux_system_code.MyShell.Perform.{Process}

-- The process itself comes to an end.
abbrev Ends : Process → Type 0
Ends r = ending r ≢ out_of_fuel

-- What a line leads to is not that its splitting runs out of fuel.
abbrev Known : Result Action → Type 0
Known r = r ≢ Result.out_of_fuel
