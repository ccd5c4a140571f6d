-- ===== src/Server/Read/Route.antt =====
-- The message that a read event of a client begins with.
use ketamarouter.Base.{ℕ, ◌≡◌, refl, Option, none, some}
use ketamarouter.Message.Ops.{Msg, empty_msg, msg_init}
use ketamarouter.Session.{Session, on_worker}
use ketamarouter.Server.Read.{first_msg}

-- No message of the client is under way.
abbrev pub NoMsg : Option Msg → Type 0
NoMsg none = Unit
NoMsg (some m) = m ≡ empty_msg m.addr

pub NoMsg-first :
    (o : Option Msg) (s : Session)
    → NoMsg o
    → (a : ℕ) × (((first_msg o s).0 ≡ empty_msg a) × ((first_msg o s).1.out ≡ s.out))
unfolding first_msg on_worker msg_init
NoMsg-first none s h = ((msg_init s.worker_buf).0.addr, (refl, refl))
NoMsg-first (some m) s h = (m.addr, (h, refl))
