-- ===== src/Stun/Header.antt =====
-- StunHeader of Stun.hpp, and the constants of the header.
use libstunxx.Common.{ℕ}
use libstunxx.Memory.{Bytes}

abbrev pub magic_cookie_value : ℕ
magic_cookie_value = 0x2112_a442

abbrev pub stun_header_size : ℕ
stun_header_size = 20

abbrev pub transaction_id_size : ℕ
transaction_id_size = 12

pub record StunHeader : Type 0 where
  pub msg_type : ℕ
  pub msg_length : ℕ
  pub magic_cookie : ℕ
  pub transaction_id : Bytes
