-- ===== src/Gtpv1/Ie/Types.antt =====
-- The type numbers of gtpv1/ie/ie.go that the messages name.
use go_gtp.Common.{ℕ}

abbrev pub cause : ℕ
cause = 1

abbrev pub imsi : ℕ
imsi = 2

abbrev pub routeing_area_identity : ℕ
routeing_area_identity = 3

abbrev pub reordering_required : ℕ
reordering_required = 8

abbrev pub recovery : ℕ
recovery = 14

abbrev pub selection_mode : ℕ
selection_mode = 15

abbrev pub teid_data_i : ℕ
teid_data_i = 16

abbrev pub teidc_plane : ℕ
teidc_plane = 17

abbrev pub teardown_ind : ℕ
teardown_ind = 19

abbrev pub nsapi : ℕ
nsapi = 20

abbrev pub charging_characteristics : ℕ
charging_characteristics = 26

abbrev pub trace_reference : ℕ
trace_reference = 27

abbrev pub trace_type : ℕ
trace_type = 28

abbrev pub charging_id : ℕ
charging_id = 127

abbrev pub end_user_address : ℕ
end_user_address = 128

abbrev pub access_point_name : ℕ
access_point_name = 131

abbrev pub protocol_configuration_options : ℕ
protocol_configuration_options = 132

abbrev pub gsn_address : ℕ
gsn_address = 133

abbrev pub msisdn : ℕ
msisdn = 134

abbrev pub qos_profile : ℕ
qos_profile = 135

abbrev pub traffic_flow_template : ℕ
traffic_flow_template = 137

abbrev pub trigger_id : ℕ
trigger_id = 142

abbrev pub omc_identity : ℕ
omc_identity = 143

abbrev pub common_flags : ℕ
common_flags = 148

abbrev pub apn_restriction : ℕ
apn_restriction = 149

abbrev pub rat_type : ℕ
rat_type = 151

abbrev pub user_location_information : ℕ
user_location_information = 152

abbrev pub ms_time_zone : ℕ
ms_time_zone = 153

abbrev pub imeisv : ℕ
imeisv = 154

abbrev pub camel_charging_information_container : ℕ
camel_charging_information_container = 155

abbrev pub additional_trace_info : ℕ
additional_trace_info = 162

abbrev pub ms_info_change_reporting_action : ℕ
ms_info_change_reporting_action = 181

abbrev pub direct_tunnel_flags : ℕ
direct_tunnel_flags = 182

abbrev pub correlation_id : ℕ
correlation_id = 183

abbrev pub bearer_control_mode : ℕ
bearer_control_mode = 184

abbrev pub evolved_allocation_retention_priority_i : ℕ
evolved_allocation_retention_priority_i = 191

abbrev pub extended_common_flags : ℕ
extended_common_flags = 193

abbrev pub user_csg_information : ℕ
user_csg_information = 194

abbrev pub csg_information_reporting_action : ℕ
csg_information_reporting_action = 195

abbrev pub aggregate_maximum_bit_rate : ℕ
aggregate_maximum_bit_rate = 198

abbrev pub ggsn_back_off_time : ℕ
ggsn_back_off_time = 202

abbrev pub signalling_priority_indication : ℕ
signalling_priority_indication = 203

abbrev pub uli_timestamp : ℕ
uli_timestamp = 214

abbrev pub cn_operator_selection_entity : ℕ
cn_operator_selection_entity = 216

abbrev pub extended_common_flags_ii : ℕ
extended_common_flags_ii = 218

abbrev pub mapped_ue_usage_type : ℕ
mapped_ue_usage_type = 223

abbrev pub up_function_selection_indication_flags : ℕ
up_function_selection_indication_flags = 224

abbrev pub charging_gateway_address : ℕ
charging_gateway_address = 251

abbrev pub private_extension : ℕ
private_extension = 255
