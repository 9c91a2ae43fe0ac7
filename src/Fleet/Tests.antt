-- ===== src/Fleet/Tests.antt =====
-- The fleet on concrete calls.
use ughi.Prelude.{◌≡◌, refl, List, [], ◌∷◌, arith}
use ughi.Fleet.{new, local_port}
use ughi.Fleet.Identity.{Call, registers, clones, updates, stops, run, IsNumbered, run-IsNumbered}

abbrev calls : List Call
calls = registers "1.0" ∷ clones 1 "10.0.0.2" 9090 ∷ stops 1 ∷ updates 2 3 4 200 ∷ []

run-IsNumbered_example : IsNumbered (run (λ n. "n") new calls)
run-IsNumbered_example = run-IsNumbered (λ n. "n") calls (omega arith)

-- The port of a later instance is that of the first again.
port_again : local_port 65537 ≡ local_port 1
unfolding local_port
port_again = refl
