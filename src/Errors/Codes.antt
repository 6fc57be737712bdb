-- ===== src/Errors/Codes.antt =====
-- The two conversions of src/www/model/errors.ts undo one another.
use pepper_vpn_client.Common.{ℕ, ◌≤◌, ◌≡◌, ◌↔◌, inl, inr, arith}
use pepper_vpn_client.Common.Exec.{ok, Result-cases}
use pepper_vpn_client.Errors.{NativeError, from_error_code, to_error_code}

-- A code becomes a native error exactly when that error becomes the code.
pub from_error_code-eq-ok_iff :
    (c : ℕ) (e : NativeError) → (from_error_code c ≡ ok e) ↔ (to_error_code e ≡ ok c)
unfolding from_error_code to_error_code
from_error_code-eq-ok_iff c e = (λ h. ground arith, λ h. ground arith)

-- A code becomes an error exactly if it is one of the twelve that the enumeration numbers from 1;
-- `NO_ERROR` and every other number throw.
pub from_error_code_domain :
    (c : ℕ) → ((e : NativeError) × (from_error_code c ≡ ok e)) ↔ ((1 ≤ c) × (c ≤ 12))
unfolding from_error_code
from_error_code_domain c = (
  λ (e, h). ground arith,
  λ (l, h). elim (Result-cases (from_error_code c)) [
    | inl (e, found) ↦ (e, found)
    | inr (x, unknown) ↦ absurd (ground arith)
  ],
)
