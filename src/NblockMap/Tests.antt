-- ===== src/NblockMap/Tests.antt =====
-- src/util/nblock_map.h: a map of three blocks, of which one is asked for.
use pbnf.Base.{ℕ, ◌+◌, ◌≡◌, refl, arith, tally_below}
use pbnf.NblockMap.{NblockMap, new, find, swap, create, get, get_num_created}
use pbnf.NblockMap.Laws.{IsCounted, Got, create_correct, get_correct}

abbrev make : ℕ → ℕ
make id = id + 10

abbrev fresh : NblockMap ℕ
fresh = new 3

fresh-IsCounted : IsCounted fresh
unfolding new tally_below
fresh-IsCounted = record { created = refl; observed = refl }

asked_Got : Got make fresh 1 (get make fresh 1)
unfolding new
asked_Got = get_correct make fresh 1 (omega arith) fresh-IsCounted

abbrev asked : NblockMap ℕ
asked = (get make fresh 1).1

asked_count : get_num_created asked ≡ 1
unfolding get_num_created get create swap find new
asked_count = refl

-- another thread had found the cell empty as well
create_run : Got make asked 1 (create make asked 1)
unfolding new get create swap find
create_run = create_correct make asked 1 (omega arith) asked_Got.counted
