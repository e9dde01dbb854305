-- ===== src/Gtpv0/Ie/Types.antt =====
-- The type numbers of gtpv0/ie/ie.go that the messages name.
use go_gtp.Common.{ℕ}

abbrev pub cause : ℕ
cause = 1

abbrev pub routeing_area_identity : ℕ
routeing_area_identity = 3

abbrev pub quality_of_service_profile : ℕ
quality_of_service_profile = 6

abbrev pub reordering_required : ℕ
reordering_required = 8

abbrev pub recovery : ℕ
recovery = 14

abbrev pub selection_mode : ℕ
selection_mode = 15

abbrev pub flow_label_data_i : ℕ
flow_label_data_i = 16

abbrev pub flow_label_signalling : ℕ
flow_label_signalling = 17

abbrev pub charging_id : ℕ
charging_id = 127

abbrev pub end_user_address : ℕ
end_user_address = 128

abbrev pub access_point_name : ℕ
access_point_name = 131

abbrev pub protocol_configuration_options : ℕ
protocol_configuration_options = 132

abbrev pub gsn_address : ℕ
gsn_address = 133

abbrev pub msisdn : ℕ
msisdn = 134

abbrev pub charging_gateway_address : ℕ
charging_gateway_address = 251

abbrev pub private_extension : ℕ
private_extension = 255
