-- ===== src/ProxyServer/Serving.antt =====
-- `ClientHandler.handle` is a handler as the server asks for, where its loops end.
use nginx_remake_v.Prelude.{ℕ, ◌≢◌}
use nginx_remake_v.Exec.{spinning}
use nginx_remake_v.ClientHandler.{Settings, Surroundings, ClientHandler}
use nginx_remake_v.ClientHandler.Handle.{handle}
use nginx_remake_v.ClientHandler.Balance.{handle-Balanced}
use nginx_remake_v.ProxyServer.Loop.{Serves}

pub handle-Serves :
    (s : Settings) (env : ℕ → ℕ → Surroundings) (now : ℕ → ℕ)
    → ((n : ℕ) (h : ClientHandler) → (handle s (env n) (now n) h).0 ≢ spinning)
    → Serves (λ n h. handle s (env n) (now n) h)
handle-Serves s env now ends = record {
  ends = ends;
  quiet = λ n h. (handle-Balanced s (env n) (now n) h).1;
}
