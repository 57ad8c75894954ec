-- ===== src/Hook/Config.antt =====
-- src/catter-hook/linux-mac/config.h (the Linux branch), and the errno values that the code uses.
use catter.Prelude.{ℕ, Bytes, codes}

abbrev pub os_path_separator : ℕ
os_path_separator = b':'

abbrev pub os_dir_separator : ℕ
os_dir_separator = b'/'

abbrev pub key_catter_proxy_path : Bytes
key_catter_proxy_path = codes "__key_catter_proxy_path_v1"

abbrev pub key_catter_command_id : Bytes
key_catter_command_id = codes "__key_catter_command_id_v1"

abbrev pub error_prefix : Bytes
error_prefix = codes "linux or mac error found in hook:"

abbrev pub key_preload : Bytes
key_preload = codes "LD_PRELOAD"

abbrev pub catter_proxy_env_key : Bytes
catter_proxy_env_key = codes "exec_is_catter_proxy_v1"

abbrev pub path_max : ℕ
path_max = 4096
