-- ===== src/Protocol/Codes.antt =====
-- The protocol codes of protocol.hpp, and `std::endl`.
use proj_rc.Base.{◌∷◌, [], Bytes, codes}

abbrev pub code_login_user : Bytes
code_login_user = codes "LIN"

abbrev pub code_login_server : Bytes
code_login_server = codes "RLI"

abbrev pub code_logout_user : Bytes
code_logout_user = codes "LOU"

abbrev pub code_logout_server : Bytes
code_logout_server = codes "RLO"

abbrev pub code_unregister_user : Bytes
code_unregister_user = codes "UNR"

abbrev pub code_unregister_server : Bytes
code_unregister_server = codes "RUR"

abbrev pub code_list_auc_user : Bytes
code_list_auc_user = codes "LMA"

abbrev pub code_list_auc_server : Bytes
code_list_auc_server = codes "RMA"

abbrev pub code_list_myb_user : Bytes
code_list_myb_user = codes "LMB"

abbrev pub code_list_myb_server : Bytes
code_list_myb_server = codes "RMB"

abbrev pub code_list_allauc_user : Bytes
code_list_allauc_user = codes "LST"

abbrev pub code_list_allauc_server : Bytes
code_list_allauc_server = codes "RLS"

abbrev pub code_showrec_user : Bytes
code_showrec_user = codes "SRC"

abbrev pub code_showrec_server : Bytes
code_showrec_server = codes "RRC"

abbrev pub code_open_auc_client : Bytes
code_open_auc_client = codes "OPA"

abbrev pub code_open_auc_server : Bytes
code_open_auc_server = codes "ROA"

abbrev pub code_close_auc_client : Bytes
code_close_auc_client = codes "CLS"

abbrev pub code_close_auc_server : Bytes
code_close_auc_server = codes "RCL"

abbrev pub code_show_asset_client : Bytes
code_show_asset_client = codes "SAS"

abbrev pub code_show_asset_server : Bytes
code_show_asset_server = codes "RSA"

abbrev pub code_bid_client : Bytes
code_bid_client = codes "BID"

abbrev pub code_bid_server : Bytes
code_bid_server = codes "RBD"

abbrev pub code_error : Bytes
code_error = codes "ERR"

abbrev pub space : Bytes
space = codes " "

abbrev pub endl : Bytes
endl = 10 ∷ []
