-- ===== src/Builder/MessageType.antt =====
-- The type field of the messages that a builder makes.
use libstunxx.Common.{ℕ, ◌≡◌, refl, ap, ◌∙◌, Bool, true, bit_or, bit_and, ltb, ltb→lt, IsU16}
use libstunxx.Stun.Types.{
  StunMethod, StunClass, method_bits, class_bits, binding, allocate, refresh, send, data_method,
  create_permission, channel_bind, connect, connection_bind, connection_attempt, request,
  indication, success_resp, error_resp,
}
use libstunxx.Stun.Kinds.{stun_class_mask}
use libstunxx.Decoder.{Decoder, message_class, message_method}

abbrev pub message_type : StunMethod → StunClass → ℕ
message_type m c = bit_or (method_bits m) (class_bits c)

-- Of a message type: whether it has 16 bits, and what the masks of the decoder cut out of it.
masked : ℕ → Bool × ℕ × ℕ
masked type = (ltb type 0x1_0000, bit_and type stun_class_mask, bit_and type 0xfeef)

TypeRead : StunMethod → StunClass → Type 0
unfolding masked
TypeRead m c = masked (message_type m c) ≡ (true, class_bits c, method_bits m)

every_class :
    (m : StunMethod)
    → TypeRead m request
    → TypeRead m indication
    → TypeRead m success_resp
    → TypeRead m error_resp
    → (c : StunClass) → TypeRead m c
every_class m r i s e request = r
every_class m r i s e indication = i
every_class m r i s e success_resp = s
every_class m r i s e error_resp = e

type_read : (m : StunMethod) (c : StunClass) → TypeRead m c
unfolding TypeRead masked
type_read binding = every_class binding refl refl refl refl
type_read allocate = every_class allocate refl refl refl refl
type_read refresh = every_class refresh refl refl refl refl
type_read send = every_class send refl refl refl refl
type_read data_method = every_class data_method refl refl refl refl
type_read create_permission = every_class create_permission refl refl refl refl
type_read channel_bind = every_class channel_bind refl refl refl refl
type_read connect = every_class connect refl refl refl refl
type_read connection_bind = every_class connection_bind refl refl refl refl
type_read connection_attempt = every_class connection_attempt refl refl refl refl

pub message_type-IsU16 : (m : StunMethod) (c : StunClass) → IsU16 (message_type m c)
unfolding TypeRead masked
message_type-IsU16 m c = ltb→lt (message_type m c) 0x1_0000 (ap (λ t. t.0) (type_read m c))

-- A decoder whose header has the type of a method and a class answers that class and that method.
pub message_class_and_method :
    (m : StunMethod) (c : StunClass) (d : Decoder)
    → d.header.msg_type ≡ message_type m c
    → (message_class d ≡ class_bits c) × (message_method d ≡ method_bits m)
unfolding TypeRead masked message_class message_method
message_class_and_method m c d e = (
  ap (λ t. bit_and t stun_class_mask) e ∙ ap (λ t. t.1) (type_read m c),
  ap (λ t. bit_and t 0xfeef) e ∙ ap (λ t. t.2) (type_read m c),
)
