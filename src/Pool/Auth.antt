-- ===== src/Pool/Auth.antt =====
-- server/pool/auth.py: the bearer tokens. `compare_digest` is equality of texts.
use Prim.Native.String.{◌++◌}
use gh_pool.Base.{Bool, false, Option, none, some, String, str_eq, ◌||◌, Result, err, if◌then◌else◌}
use gh_pool.Pool.State.{Pool, Tokens}
use gh_pool.Pool.Queue.{HttpError, http}

-- _matches
unfoldable pub matches : Option String → String → Bool
matches none token = false
matches (some given) token = str_eq given ("Bearer " ++ token)

-- auth_worker, auth_client and auth_any raise 401 unless these hold.
unfoldable pub auth_worker : Tokens → Option String → Bool
unfolding matches
auth_worker c h = matches h c.worker_token

unfoldable pub auth_client : Tokens → Option String → Bool
unfolding matches
auth_client c h = matches h c.client_token

unfoldable pub auth_any : Tokens → Option String → Bool
unfolding matches
auth_any c h = matches h c.worker_token || matches h c.client_token

-- A handler behind one of these checks.
unfoldable pub behind {ℓ} :
    {A : Type ℓ} → Bool → (Pool → Pool × Result HttpError A) → Pool → Pool × Result HttpError A
behind allowed handler s = if allowed then handler s else (s, err (http 401))
