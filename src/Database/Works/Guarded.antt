-- ===== src/Database/Works/Guarded.antt =====
-- src/database: the work under a lock leaves the lock held.
use log_stream.Base.{◌≡◌, refl, ap, ◌∙◌, List, [], ◌∷◌, ◌++◌}
use log_stream.Database.Session.{Event}
use log_stream.Database.Lock.Guard.{Guard, held, watch, guard, guard-append}
use log_stream.Database.Works.{
  Works, loads, is_answered, is_rejected, reads_partitions, locks_default, creates, attaches,
  asks_overlap, moves_overlap, begins, commits, rolls_back, initializes, reads, runs, inserts,
}

pub watch-Works :
    (start : Guard) (log : List Event) (e : Event)
    → Works e
    → guard start log ≡ held
    → guard start (log ++ (e ∷ [])) ≡ held
watch-Works start log e w h = guard-append start log e ∙ ap (watch e) h ∙ still w
  where
    still : {e : Event} → Works e → watch e held ≡ held
    still loads = refl
    still (is_answered begins) = refl
    still (is_answered commits) = refl
    still (is_answered rolls_back) = refl
    still (is_answered initializes) = refl
    still (is_answered reads) = refl
    still (is_answered runs) = refl
    still (is_answered inserts) = refl
    still (is_rejected begins) = refl
    still (is_rejected commits) = refl
    still (is_rejected rolls_back) = refl
    still (is_rejected initializes) = refl
    still (is_rejected reads) = refl
    still (is_rejected runs) = refl
    still (is_rejected inserts) = refl
    still (is_answered reads_partitions) = refl
    still (is_answered locks_default) = refl
    still (is_answered creates) = refl
    still (is_answered attaches) = refl
    still (is_answered asks_overlap) = refl
    still (is_answered moves_overlap) = refl
    still (is_rejected reads_partitions) = refl
    still (is_rejected locks_default) = refl
    still (is_rejected creates) = refl
    still (is_rejected attaches) = refl
    still (is_rejected asks_overlap) = refl
    still (is_rejected moves_overlap) = refl
