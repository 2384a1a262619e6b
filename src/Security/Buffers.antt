-- ===== src/Security/Buffers.antt =====
-- security/secure_bytes.py: a byte buffer that is zeroed when it is closed.
pub mod Lifecycle
use gpg_meister.Base.{
  Bool, Result, [], err, false, if◌then◌else◌, length, ltb, ok, raise_if, runtime_error, suc, take,
  true, zero, ℕ, ◌++◌, ◌>>=◌, ◌>>◌, ◌∷◌,
}
use gpg_meister.Python.{Bytes}

-- `buffer` has one byte more than `size`, the NUL slot of a ctypes string buffer.
pub record SecureBytes : Type 0 where
  pub buffer : Bytes
  pub size : ℕ
  pub locked : Bool
  pub closed : Bool

unfoldable pub zeros : ℕ → Bytes
zeros zero = []
zeros (suc n) = 0 ∷ zeros n

-- `SecureBytes.from_bytes(source)`; `mlock` says whether the system pins a buffer of a size.
unfoldable pub from_bytes : (ℕ → Bool) → Bytes → SecureBytes
from_bytes mlock source = record {
  buffer = source ++ 0 ∷ [];
  size = length source;
  locked = if ltb 0 (length source) then mlock (length source) else false;
  closed = false;
}

-- `view()`, read as the bytes that it shows when it is taken: the callers that are
-- modelled read it at once. Lifecycle has what can be done with a view that is kept.
unfoldable pub view : SecureBytes → Result Bytes
view sb =
    if sb.closed then err (runtime_error "SecureBytes is closed") else ok (take sb.size sb.buffer)

unfoldable pub to_bytes : SecureBytes → Result Bytes
unfolding view
to_bytes sb = do raise_if sb.closed (runtime_error "SecureBytes is closed"); view sb

-- `__enter__`
unfoldable pub enter : SecureBytes → Result SecureBytes
enter sb = if sb.closed then err (runtime_error "cannot re-enter a closed SecureBytes") else ok sb

-- `locked` is the field `_locked`: `close` clears it and looks at no result of `munlock`.
-- `close()`, also `__exit__` and, for a buffer that is still open, `__del__`
unfoldable pub close : SecureBytes → SecureBytes
unfolding zeros
close sb =
    if sb.closed
    then sb
    else record { buffer = zeros (length sb.buffer); size = sb.size; locked = false; closed = true }
