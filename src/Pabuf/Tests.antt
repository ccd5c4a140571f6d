-- ===== src/Pabuf/Tests.antt =====
-- Runs of a pool, and each theorem of the pool at one.
use ketamarouter.Base.{◌≡◌, refl, [], ◌∷◌, arith}
use ketamarouter.Pabuf.{Pabuf, pabuf_get, pabuf_back, pabuf_init, pabuf_init2}
use ketamarouter.Pabuf.Owns.{Owns, pabuf_init-Owns}
use ketamarouter.Pabuf.Get.{pabuf_get-Owns}
use ketamarouter.Pabuf.Back.{pabuf_back-Owns}

abbrev pool : Pabuf
pool = pabuf_init 48

out_once : Owns (pabuf_get pool).1 ((pabuf_get pool).0 ∷ [])
out_once = pabuf_get-Owns pool [] (pabuf_init-Owns 48 (omega arith))

pabuf_get-Owns_example :
    Owns
      (pabuf_get (pabuf_get pool).1).1
      ((pabuf_get (pabuf_get pool).1).0 ∷ (pabuf_get pool).0 ∷ [])
pabuf_get-Owns_example = pabuf_get-Owns (pabuf_get pool).1 ((pabuf_get pool).0 ∷ []) out_once

pabuf_back-Owns_example : Owns (pabuf_back (pabuf_get pool).1 (pabuf_get pool).0) []
pabuf_back-Owns_example = pabuf_back-Owns (pabuf_get pool).1 (pabuf_get pool).0 [] out_once

-- An object that is taken back is the next one handed out.
recycled : (pabuf_get (pabuf_back (pabuf_get pool).1 (pabuf_get pool).0)).0 ≡ 1
unfolding pabuf_get pabuf_back pabuf_init
recycled = refl

-- A pool that keeps nothing frees the object.
freed : (pabuf_back (pabuf_get (pabuf_init2 48 0)).1 1).memory ≡ 0
unfolding pabuf_get pabuf_back pabuf_init2
freed = refl
