-- ===== src/SslContext.antt =====
-- EdSSLContext (ednio/edssl/EdSSLContext.cpp): the context that it builds for a version, the default
-- context of a thread, and the password of a private key. OpenSSL's answers are arguments.
pub mod Password
mod Tests
use ednio.Prelude.{
  ℕ, zero, suc, ◌+◌, ◌-◌, List, [], ◌∷◌, ◌++◌, Bool, true, false, Option, none, some, ◌==◌, leb,
  if◌then◌else◌, ◌>>=◌, length, take, drop,
}

-- `SSL_VER_V23` to `SSL_VER_DTLSV1`.
pub data Version : Type 0 where
  ver_v23 ver_v3 ver_tlsv1 ver_tlsv11 ver_tlsv12 ver_dtlsv1 : Version

-- OpenSSL's methods, for either role or for one.
pub data Role : Type 0 where
  either_role server_role client_role : Role

pub data Protocol : Type 0 where
  sslv23 sslv3 tlsv1 tlsv1_1 dtlsv1 : Protocol

pub record Method : Type 0 where
  pub protocol : Protocol
  pub role : Role

abbrev method : Protocol → Role → Method
method p r = record { protocol = p; role = r }

-- The methods that `buildServerCtx`, `buildClientCtx` and `buildCtx` choose.
unfoldable pub server_method : Version → Option Method
server_method ver_tlsv1 = some (method tlsv1 server_role)
server_method ver_tlsv11 = some (method tlsv1_1 server_role)
server_method ver_v23 = some (method sslv23 server_role)
server_method ver_v3 = some (method sslv3 server_role)
server_method ver_dtlsv1 = some (method dtlsv1 server_role)
server_method ver_tlsv12 = none

unfoldable pub client_method : Version → Option Method
client_method ver_tlsv1 = some (method tlsv1 either_role)
client_method ver_tlsv11 = some (method tlsv1_1 client_role)
client_method ver_v23 = some (method sslv23 client_role)
client_method ver_v3 = some (method sslv3 client_role)
client_method ver_dtlsv1 = some (method dtlsv1 client_role)
client_method ver_tlsv12 = none

unfoldable pub any_method : Version → Option Method
any_method ver_tlsv1 = some (method tlsv1 either_role)
any_method ver_tlsv11 = some (method tlsv1_1 either_role)
any_method ver_v23 = some (method sslv23 either_role)
any_method ver_v3 = some (method sslv3 either_role)
any_method ver_dtlsv1 = some (method dtlsv1 either_role)
any_method ver_tlsv12 = none

-- `SSL_CTX_new`, which gives a context or none: what stands in it is its method.
abbrev pub CtxNew : Type 0
CtxNew = Method → Option Method

-- `buildServerCtx`, where `checked` says whether the private key fits.
unfoldable pub build_server_ctx : CtxNew → Bool → Version → Option Method
unfolding server_method
build_server_ctx new checked ver = do
  m ← server_method ver
  ctx ← new m
  if checked then some ctx else none

unfoldable pub build_client_ctx : CtxNew → Version → Option Method
unfolding client_method
build_client_ctx new ver = client_method ver >>= new

unfoldable pub build_ctx : CtxNew → Version → Option Method
unfolding any_method
build_ctx new ver = any_method ver >>= new

pub record SslContext : Type 0 where
  pub ctx : Option Method
  -- `mPasswd`
  pub passwd : List ℕ

abbrev pub passwd_size : ℕ
passwd_size = 20

-- The constructor, with what the memory of the password held.
abbrev pub new_context : List ℕ → SslContext
new_context junk = record { ctx = none; passwd = junk }

-- `open`: setting the callback in a null context is a fault.
unfoldable pub open_context : CtxNew → Version → SslContext → Option SslContext
unfolding build_ctx
open_context new ver c = build_ctx new ver >>= λ ctx. some record c { ctx = some ctx }

unfoldable pub close_context : SslContext → SslContext
close_context c = record c { ctx = none }

-- A text of memory, up to its first 0; reading past the end of the memory is a fault.
unfoldable pub text_at : List ℕ → Option (List ℕ)
text_at [] = none
text_at (x ∷ xs) = let rest = text_at xs in if x == 0 then some [] else (rest >>= λ t. some (x ∷ t))

abbrev pub zeros : ℕ → List ℕ
zeros zero = []
zeros (suc n) = 0 ∷ zeros n

-- `strncpy` of a text to memory: the text is cut, or filled up with zeros.
unfoldable pub copy_text : ℕ → List ℕ → List ℕ → List ℕ
copy_text n text memory = take n (text ++ zeros n) ++ drop n memory

unfoldable pub set_cert_password : List ℕ → SslContext → SslContext
unfolding copy_text
set_cert_password pw c = record c { passwd = copy_text (passwd_size - 1) pw c.passwd }

-- `dgPasswordCb`: the text that is copied to a buffer of this size, which must hold its 0 too.
unfoldable pub password_cb : ℕ → SslContext → Option (List ℕ)
unfolding text_at
password_cb size c = do pw ← text_at c.passwd; if leb (length pw + 1) size then some pw else none

-- `_gSSLIsInit` and `_tDefEdSSL` of a thread.
pub record Defaults : Type 0 where
  pub is_init : Bool
  pub def_ed_ssl : Option SslContext

unfoldable pub fresh_default : CtxNew → List ℕ → Option SslContext
unfolding open_context
fresh_default new junk = open_context new ver_tlsv1 (new_context junk)

unfoldable pub default_with : CtxNew → List ℕ → Defaults → Option SslContext → Option Defaults
unfolding fresh_default
default_with new junk d (some c) = some d
default_with new junk d none =
    fresh_default new junk >>= λ c. some record { is_init = true; def_ed_ssl = some c }

-- `getDefaultEdSSL`, with the thread's state.
unfoldable pub get_default_ed_ssl : CtxNew → List ℕ → Defaults → Option Defaults
unfolding default_with
get_default_ed_ssl new junk d = default_with new junk d d.def_ed_ssl

unfoldable pub free_default_ed_ssl : Defaults → Defaults
free_default_ed_ssl d = record d { def_ed_ssl = none }
