-- ===== src/Tests/Numbers.antt =====
-- An encrypted volume gets its UUID, reserves, fails to reserve, is saved, crashes and reserves again.
use viperblock.Prelude.{ℕ, ◌≡◌, refl, true, arith, Option, some, List, [], ◌∷◌}
use viperblock.Numbering.{
  Counter, Persist, Reserved, raise, is_zero_uuid, mint_volume_uuid, persist_state_local,
  publish_high_water, reserve_window, reserve_seq_num, bump_seq_num_high_water, reopen, save_minted,
  save_state, seed_high_water, ensure_volume_uuid,
}
use viperblock.Numbering.Issue.{IsDurable, Outcome, reserve_seq_num-Outcome, reserve_seq_num-serves}
use viperblock.Numbering.History.{Event, step, issued, Roomy, Ascends, issued-Ascends}

abbrev fresh : Counter
fresh = record {
  encryption_enabled = true;
  seq_num = 0;
  seq_num_high_water = 0;
  volume_uuid = 0 ∷ 0 ∷ 0 ∷ 0 ∷ [];
  durable = 0;
}

abbrev random_bytes : Option (List ℕ)
random_bytes = some (7 ∷ 1 ∷ 4 ∷ 9 ∷ [])

abbrev history : List Event
history =
    Event.ensures random_bytes Persist.saved
    ∷ Event.reserve random_bytes Persist.saved 3
    ∷ Event.reserve random_bytes Persist.failed_late 2000000
    ∷ Event.saves random_bytes Persist.saved
    ∷ Event.restart Persist.saved (7 ∷ 1 ∷ 4 ∷ 9 ∷ [])
    ∷ Event.reserve random_bytes Persist.saved 5
    ∷ []

fresh-IsDurable : IsDurable fresh
fresh-IsDurable = record { encrypted = refl; below = omega arith }

issued_by_history : issued history fresh ≡ (0, 3) ∷ (1048576, 5) ∷ []
unfolding issued step reserve_seq_num reserve_window mint_volume_uuid is_zero_uuid
    publish_high_water persist_state_local reopen bump_seq_num_high_water raise save_minted
    save_state seed_high_water ensure_volume_uuid
issued_by_history = refl

history-Roomy : Roomy history fresh
unfolding step reserve_seq_num reserve_window mint_volume_uuid is_zero_uuid publish_high_water
    persist_state_local reopen bump_seq_num_high_water raise save_minted save_state seed_high_water
    ensure_volume_uuid
history-Roomy =
    (omega arith, (omega arith, (omega arith, (refl, (omega arith, (omega arith, tt))))))

issued-Ascends_example : Ascends 0 (issued history fresh)
issued-Ascends_example =
    issued-Ascends 0 history fresh fresh-IsDurable history-Roomy (omega arith) (omega arith)

reserve_seq_num-Outcome_example : Outcome 0 3 (reserve_seq_num random_bytes Persist.saved 3 fresh)
reserve_seq_num-Outcome_example =
    reserve_seq_num-Outcome 0 3 random_bytes Persist.saved fresh fresh-IsDurable (omega arith)
      (omega arith) (omega arith)

reserve_seq_num-serves_example :
    (reserve_seq_num random_bytes Persist.saved 3 fresh).1 ≡ Reserved.start 0
reserve_seq_num-serves_example =
    reserve_seq_num-serves 3 (7 ∷ 1 ∷ 4 ∷ 9 ∷ []) fresh refl (omega arith)
