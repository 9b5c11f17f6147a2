-- ===== src/Store/Reads.antt =====
-- `memory_get` and `memory_history` of storage/postgres.py, as far as the row that they return: the
-- presentation of a row as a response is not modelled.
use mcp_assist_memory.Prelude.{
  ℕ, Text, Bool, not, Option, none, some, List, ◌&&◌, take, keep, if◌then◌else◌,
}
use mcp_assist_memory.Store.Rows.{Row, Table, same_key, sort_desc, latest, is_live}

-- the test on the latest row of the key
unfoldable pub visible : ℕ → Bool → Option Row → Option Row
visible now include_quarantined none = none
visible now include_quarantined (some r) =
    if not (is_live now r)
    then none
    else if r.quarantined && not include_quarantined
    then none
    else some r

unfoldable pub memory_get : ℕ → Text → Text → Bool → Table → Option Row
unfolding visible
memory_get now ns key include_quarantined t = visible now include_quarantined (latest ns key t)

abbrev pub history_limit : ℕ
history_limit = 50

unfoldable pub memory_history : ℕ → Text → Text → Table → List Row
memory_history limit ns key t = take limit (sort_desc (keep (same_key ns key) t))
