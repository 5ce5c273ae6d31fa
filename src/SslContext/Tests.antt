-- ===== src/SslContext/Tests.antt =====
-- A password, and the contexts that the builders make, at concrete versions.
use ednio.Prelude.{ℕ, ◌≡◌, refl, List, [], ◌∷◌, ◌++◌, none, some, true}
use ednio.SslContext.{
  ver_tlsv1, ver_tlsv12, new_context, zeros, set_cert_password, password_cb, build_server_ctx,
  build_client_ctx, open_context, build_ctx, any_method, server_method, client_method, method,
  tlsv1, either_role, server_role,
}
use ednio.SslContext.Password.{password_cb-set_cert_password}

-- The builders: a server's context, a client's, and the version that none of them knows.
server_of_tlsv1 : build_server_ctx some true ver_tlsv1 ≡ some (method tlsv1 server_role)
unfolding build_server_ctx server_method
server_of_tlsv1 = refl

client_of_tlsv1 : build_client_ctx some ver_tlsv1 ≡ some (method tlsv1 either_role)
unfolding build_client_ctx client_method
client_of_tlsv1 = refl

open_tlsv12_faults : open_context some ver_tlsv12 (new_context []) ≡ none
unfolding open_context build_ctx any_method
open_tlsv12_faults = refl

abbrev ones : List ℕ
ones = 1 ∷ 1 ∷ 1 ∷ 1 ∷ 1 ∷ 1 ∷ 1 ∷ 1 ∷ 1 ∷ 1 ∷ 1 ∷ 1 ∷ 1 ∷ 1 ∷ 1 ∷ 1 ∷ 1 ∷ 1 ∷ 1 ∷ []

-- The password `key`, in a memory that held ones and a 0 at its end.
password_cb-set_cert_password_example :
    password_cb 1024 (set_cert_password (107 ∷ 101 ∷ 121 ∷ []) (new_context (ones ++ zeros 1)))
    ≡ some (107 ∷ 101 ∷ 121 ∷ [])
password_cb-set_cert_password_example =
    password_cb-set_cert_password 1024 (107 ∷ 101 ∷ 121 ∷ []) (new_context (ones ++ zeros 1))
      (refl, (refl, (refl, tt))) refl
