-- ===== src/Countque/Tests.antt =====
-- Runs of a queue of six buckets of ten seconds, and each theorem of the queue at one.
use ketamarouter.Base.{◌≡◌, refl, [], ◌∷◌, arith}
use ketamarouter.Pabuf.{pabuf_get, pabuf_back, pabuf_init}
use ketamarouter.Pabuf.Owns.{Owns, pabuf_init-Owns}
use ketamarouter.Pabuf.Get.{pabuf_get-Owns}
use ketamarouter.Countque.{
  Countque, get_ttl_time, cq_init, cq_tic_time, cq_count, cq_free, cq_adjust, drop_tics,
  count_event, add_tic, cq_tic_init,
}
use ketamarouter.Countque.Window.{Tracks, live}
use ketamarouter.Countque.Count.{cq_tic_time-live, cq_count-live, cq_free-Owns, cq_init-Tracks}

program : Unit {0}
unfolding get_ttl_time cq_init cq_tic_time cq_count cq_free cq_adjust drop_tics count_event add_tic
    cq_tic_init pabuf_get pabuf_back pabuf_init
program = tt

abbrev queue : Countque
queue = cq_init 10 6 (pabuf_init 64) (pabuf_init 24)

queue-Tracks : Tracks queue [] [] 0
queue-Tracks =
    cq_init-Tracks 10 6 0 (pabuf_init 64) (pabuf_init 24) [] (omega arith)
      (pabuf_init-Owns 24 (omega arith))

cq_tic_time-live_example :
    ((cq_tic_time queue 57).0 ≡ live 60 50 (50 ∷ []))
    × Tracks (cq_tic_time queue 57).1 (50 ∷ []) [] 50
unfolding program
cq_tic_time-live_example =
    cq_tic_time-live queue [] [] 0 57 queue-Tracks (omega arith) (omega arith)

once : Tracks (cq_tic_time queue 57).1 (50 ∷ []) [] 50
once = cq_tic_time-live_example.1

-- At 109 the event of bucket 50 still counts, and at 110 it does not.
windows :
    ((cq_count (cq_tic_time queue 57).1 109).0 ≡ 1)
    × ((cq_count (cq_tic_time queue 57).1 110).0 ≡ 0)
unfolding program
windows = (refl, refl)

cq_count-live_example :
    ((cq_count (cq_tic_time queue 57).1 109).0 ≡ live 60 100 (50 ∷ []))
    × Tracks (cq_count (cq_tic_time queue 57).1 109).1 (50 ∷ []) [] 100
unfolding program
cq_count-live_example =
    cq_count-live (cq_tic_time queue 57).1 (50 ∷ []) [] 50 109 once (omega arith)

cq_free-Owns_example :
    Owns (cq_free (cq_tic_time queue 57).1).0 [] × Owns (cq_free (cq_tic_time queue 57).1).1 []
unfolding program
cq_free-Owns_example =
    cq_free-Owns (cq_tic_time queue 57).1 (50 ∷ []) [] [] 50 once
      (pabuf_get-Owns (pabuf_init 64) [] (pabuf_init-Owns 64 (omega arith)))
