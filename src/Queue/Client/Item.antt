-- ===== src/Queue/Client/Item.antt =====
-- The fields of the messages that `EnqueueFileWithAttempts` and `AddToDLQ` add
-- (internal/queue/valkey.go), and the read of them by the claimer (cmd/claimer/main.go).
use openfilter_pipelines_con.Base.{ℤ, List, [], ◌∷◌, String, Dict}
use openfilter_pipelines_con.Go.Strconv.{itoa}

unfoldable pub work_item : String → String → ℤ → Dict String
work_item run file attempts = ("run", run) ∷ ("file", file) ∷ ("attempts", itoa attempts) ∷ []

unfoldable pub dead_item : String → String → ℤ → String → Dict String
dead_item run file attempts reason =
    ("run", run) ∷ ("file", file) ∷ ("attempts", itoa attempts) ∷ ("reason", reason) ∷ []

-- Fields and values as the words of XADD.
unfoldable pub flatten : Dict String → List String
flatten [] = []
flatten ((key, value) ∷ fields) = key ∷ value ∷ flatten fields
