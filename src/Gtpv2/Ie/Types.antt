-- ===== src/Gtpv2/Ie/Types.antt =====
-- The type numbers of gtpv2/ie/ie.go that the messages name.
use go_gtp.Common.{ℕ}

abbrev pub imsi : ℕ
imsi = 1

abbrev pub cause : ℕ
cause = 2

abbrev pub recovery : ℕ
recovery = 3

abbrev pub access_point_name : ℕ
access_point_name = 71

abbrev pub aggregate_maximum_bit_rate : ℕ
aggregate_maximum_bit_rate = 72

abbrev pub eps_bearer_id : ℕ
eps_bearer_id = 73

abbrev pub ip_address : ℕ
ip_address = 74

abbrev pub mobile_equipment_identity : ℕ
mobile_equipment_identity = 75

abbrev pub msisdn : ℕ
msisdn = 76

abbrev pub indication : ℕ
indication = 77

abbrev pub protocol_configuration_options : ℕ
protocol_configuration_options = 78

abbrev pub pdn_address_allocation : ℕ
pdn_address_allocation = 79

abbrev pub rat_type : ℕ
rat_type = 82

abbrev pub serving_network : ℕ
serving_network = 83

abbrev pub user_location_information : ℕ
user_location_information = 86

abbrev pub fully_qualified_teid : ℕ
fully_qualified_teid = 87

abbrev pub delay_value : ℕ
delay_value = 92

abbrev pub bearer_context : ℕ
bearer_context = 93

abbrev pub charging_id : ℕ
charging_id = 94

abbrev pub charging_characteristics : ℕ
charging_characteristics = 95

abbrev pub trace_information : ℕ
trace_information = 96

abbrev pub pdn_type : ℕ
pdn_type = 99

abbrev pub procedure_transaction_id : ℕ
procedure_transaction_id = 100

abbrev pub mm_context_gsm_key_and_triplets : ℕ
mm_context_gsm_key_and_triplets = 103

abbrev pub mm_context_umts_key_used_cipher_and_quintuplets : ℕ
mm_context_umts_key_used_cipher_and_quintuplets = 104

abbrev pub mm_context_gsm_key_used_cipher_and_quintuplets : ℕ
mm_context_gsm_key_used_cipher_and_quintuplets = 105

abbrev pub mm_context_umts_key_and_quintuplets : ℕ
mm_context_umts_key_and_quintuplets = 106

abbrev pub mm_context_eps_security_context_quadruplets_and_quintuplets : ℕ
mm_context_eps_security_context_quadruplets_and_quintuplets = 107

abbrev pub mm_context_umts_key_quadruplets_and_quintuplets : ℕ
mm_context_umts_key_quadruplets_and_quintuplets = 108

abbrev pub pdn_connection : ℕ
pdn_connection = 109

abbrev pub packet_tmsi : ℕ
packet_tmsi = 111

abbrev pub ptmsi_signature : ℕ
ptmsi_signature = 112

abbrev pub hop_counter : ℕ
hop_counter = 113

abbrev pub ue_time_zone : ℕ
ue_time_zone = 114

abbrev pub complete_request_message : ℕ
complete_request_message = 116

abbrev pub guti : ℕ
guti = 117

abbrev pub f_container : ℕ
f_container = 118

abbrev pub port_number : ℕ
port_number = 126

abbrev pub apn_restriction : ℕ
apn_restriction = 127

abbrev pub selection_mode : ℕ
selection_mode = 128

abbrev pub change_reporting_action : ℕ
change_reporting_action = 131

abbrev pub fully_qualified_csid : ℕ
fully_qualified_csid = 132

abbrev pub node_type : ℕ
node_type = 135

abbrev pub fully_qualified_domain_name : ℕ
fully_qualified_domain_name = 136

abbrev pub rfsp_index : ℕ
rfsp_index = 144

abbrev pub user_csg_information : ℕ
user_csg_information = 145

abbrev pub csg_information_reporting_action : ℕ
csg_information_reporting_action = 146

abbrev pub detach_type : ℕ
detach_type = 150

abbrev pub local_distinguished_name : ℕ
local_distinguished_name = 151

abbrev pub node_features : ℕ
node_features = 152

abbrev pub throttling : ℕ
throttling = 154

abbrev pub allocation_retension_priority : ℕ
allocation_retension_priority = 155

abbrev pub epc_timer : ℕ
epc_timer = 156

abbrev pub signalling_priority_indication : ℕ
signalling_priority_indication = 157

abbrev pub mdt_configuration : ℕ
mdt_configuration = 162

abbrev pub additional_protocol_configuration_options : ℕ
additional_protocol_configuration_options = 163

abbrev pub henb_information_reporting : ℕ
henb_information_reporting = 165

abbrev pub ipv4_configuration_parameters : ℕ
ipv4_configuration_parameters = 166

abbrev pub twan_identifier : ℕ
twan_identifier = 169

abbrev pub uli_timestamp : ℕ
uli_timestamp = 170

abbrev pub rannas_cause : ℕ
rannas_cause = 172

abbrev pub cn_operator_selection_entity : ℕ
cn_operator_selection_entity = 173

abbrev pub trusted_wlan_mode_indication : ℕ
trusted_wlan_mode_indication = 174

abbrev pub node_number : ℕ
node_number = 175

abbrev pub node_identifier : ℕ
node_identifier = 176

abbrev pub presence_reporting_area_action : ℕ
presence_reporting_area_action = 177

abbrev pub presence_reporting_area_information : ℕ
presence_reporting_area_information = 178

abbrev pub twan_identifier_timestamp : ℕ
twan_identifier_timestamp = 179

abbrev pub overload_control_information : ℕ
overload_control_information = 180

abbrev pub load_control_information : ℕ
load_control_information = 181

abbrev pub paging_and_service_information : ℕ
paging_and_service_information = 186

abbrev pub integer_number : ℕ
integer_number = 187

abbrev pub millisecond_time_stamp : ℕ
millisecond_time_stamp = 188

abbrev pub monitoring_event_information : ℕ
monitoring_event_information = 189

abbrev pub remote_ue_context : ℕ
remote_ue_context = 191

abbrev pub ciot_optimizations_support_indication : ℕ
ciot_optimizations_support_indication = 194

abbrev pub scefpdn_connection : ℕ
scefpdn_connection = 195

abbrev pub extended_protocol_configuration_options : ℕ
extended_protocol_configuration_options = 197

abbrev pub serving_plmn_rate_control : ℕ
serving_plmn_rate_control = 198

abbrev pub counter : ℕ
counter = 199

abbrev pub mapped_ue_usage_type : ℕ
mapped_ue_usage_type = 200

abbrev pub secondary_rat_usage_data_report : ℕ
secondary_rat_usage_data_report = 201

abbrev pub up_function_selection_indication_flags : ℕ
up_function_selection_indication_flags = 202

abbrev pub apn_rate_control_status : ℕ
apn_rate_control_status = 204

abbrev pub extended_trace_information : ℕ
extended_trace_information = 205

abbrev pub monitoring_event_extension_information : ℕ
monitoring_event_extension_information = 206

abbrev pub additional_rrm_policy_index : ℕ
additional_rrm_policy_index = 207

abbrev pub private_extension : ℕ
private_extension = 255
