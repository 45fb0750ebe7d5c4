-- ===== src/Ws/Message.antt =====
-- The messages of RaspberryPi/src/ws/message_queue.h. A component of `motion` is a multiple of
-- INT_TO_FLOAT_CONV_FACTOR (1E-7) and is kept as that multiple; the rounding of the product to
-- `float` is not modelled. Every timestamp of the source is 0.
use robot_arm.Base.{ℕ, ℤ, pos, negsuc}

pub record Vec3 : Type 0 where
  pub x : ℤ
  pub y : ℤ
  pub z : ℤ

-- MSG_TYPE; the constants are the enumeration's values, as `Message.value` holds them.
abbrev pub msg_disconnect : ℤ
msg_disconnect = negsuc 0

abbrev pub msg_connect : ℤ
msg_connect = pos 0

abbrev pub msg_motion_vector : ℤ
msg_motion_vector = pos 1

abbrev pub msg_string : ℤ
msg_string = pos 2

abbrev pub msg_quit : ℤ
msg_quit = pos 3

abbrev pub msg_btn_a : ℤ
msg_btn_a = pos 4

abbrev pub msg_btn_b : ℤ
msg_btn_b = pos 5

abbrev pub msg_btn_a_up : ℤ
msg_btn_a_up = pos 6

abbrev pub msg_btn_b_up : ℤ
msg_btn_b_up = pos 7

pub data UserType : Type 0 where
  user_websocket user_gamepad : UserType

pub record Message : Type 0 where
  pub value : ℤ
  pub timestamp : ℕ
  pub user_id : ℤ
  pub user_type : UserType
  pub motion : Vec3

abbrev pub no_motion : Vec3
no_motion = record { x = pos 0; y = pos 0; z = pos 0 }
