-- ===== src/Storage/DetectionStore/Turns.antt =====
-- The conversation turns that the detection store gives back.
use neuro_pipeline.Prelude.{ℕ, ◌≡◌, String, filter}
use neuro_pipeline.Prelude.Last.{last}
use neuro_pipeline.Prelude.Newest.{IsRising, newest-last}
use neuro_pipeline.Storage.DetectionStore.{DetectionStore, selects_turn, query_conversations}

-- Where the turns of a device were recorded in the order of their times, a query for at most `limit`
-- of them gives the last ones, oldest first: the sort by falling time, the limit and the reversal do
-- together what the end of a list does.
pub query_conversations-last :
    (device_id context_type : String) (limit since : ℕ) (s : DetectionStore)
    → IsRising
        (λ t. t.timestamp)
        (filter (selects_turn device_id context_type since) s.conversations)
    → query_conversations device_id limit context_type since s
      ≡ last limit (filter (selects_turn device_id context_type since) s.conversations)
unfolding query_conversations
query_conversations-last device_id context_type limit since s h =
    newest-last (λ t. t.timestamp) limit _ h
