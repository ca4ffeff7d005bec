-- ===== src/Sdk/Tests/Parsing.antt =====
-- The theorems on sdk/src/args.ts at concrete inputs.
use collateralized_agents.Base.{◌≡◌, some}
use collateralized_agents.Sdk.Args.{parse_sol}
use collateralized_agents.Sdk.Args.Printed.{print_sol, parse_sol_printed}

parse_sol_printed_example : parse_sol (print_sol 12_050_000_700) ≡ some 12_050_000_700
parse_sol_printed_example = parse_sol_printed 12_050_000_700
