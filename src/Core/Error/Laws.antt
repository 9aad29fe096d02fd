-- ===== src/Core/Error/Laws.antt =====
-- The code and status tables of `McpError` agree with one another.
use turbomcp.Prelude.{◌≡◌, ◌↔◌, ◌⊎◌, true, arith}
use turbomcp.Prelude.Int.{minus}
use turbomcp.Core.Error.{McpError, jsonrpc_code, http_status, is_retryable}

-- What the three tables say of one error.
abbrev pub TablesAgree : McpError → Type 0
TablesAgree e =
    ((is_retryable e ≡ true) ↔ ((http_status e ≡ 503) ⊎ (http_status e ≡ 504)))
    × ((jsonrpc_code e ≡ minus 32001)
        ↔ ((is_retryable e ≡ true) ⊎ (http_status e ≡ 401) ⊎ (http_status e ≡ 403)))
    × ((jsonrpc_code e ≡ minus 32020)
          ⊎ (jsonrpc_code e ≡ minus 32021)
          ⊎ (jsonrpc_code e ≡ minus 32022)
        → http_status e ≡ 400)
    × (jsonrpc_code e ≡ minus 32601 → http_status e ≡ 404)

-- For every error: a retry is advised exactly for the statuses 503 and 504; the code is -32001
-- exactly for a retryable or an authorization failure; an error of the specification's own band,
-- -32020 to -32022, has status 400; and a "method not found" code has status 404.
pub tables_agree : (e : McpError) → TablesAgree e
unfolding jsonrpc_code http_status is_retryable
tables_agree e = ground arith
