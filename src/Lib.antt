-- ===== src/Lib.antt =====
-- The security framework: the trusted applications that run in a trusted execution environment
-- (TEE) and the permission manager of the device. The client programs of ca/ call the applications
-- of ta/ through the TEE; an application keeps its secrets as persistent objects of the TEE's
-- storage. permission/ keeps the permissions of each installed package in a database of its own
-- and a queue of the permissions that were used.
--
-- Base holds the names that every module shares: Boolean tests on native numbers, byte strings,
-- texts, list lemmas and maps as functions. Decimal has the decimal digits that the C library
-- prints and reads. Tee is the interface of the TEE: the parameter blocks of a command
-- (TEE_Param), and a record of the storage and digest calls with the behaviour that the TEE
-- Internal Core API documents for them as records of laws (StorageLaws, DigestLaws); Tee/Memory is
-- a concrete TEE on which the laws hold. Ta holds the call sequences that the applications share:
-- create, write and close; open, read, work and close; open and close. The laws of these sequences
-- are in Ta/Laws and Ta/Reading.
--
-- Pin models ta/pin/pin_ta.c with the command numbers of include/pin_ta.h. Pin_Store, Pin_Verify,
-- Pin_Change, Pin_GetSha256, Pin_Check and Pin_Delete are pin_store, pin_verify, pin_change,
-- pin_get_sha256, pin_check and pin_delete; PIN_TA_InvokeCommandEntryPoint is invoke_command. The
-- first value parameter selects one of two stores. Pin/Bounds says when the commands stay within
-- their buffers, and Pin/Guesses what a stored PIN accepts after any number of guesses.
--
-- Comsst models ta/comsst/comsst_ta.c with the command numbers of include/comsst_ta.h.
-- Comsst_CheckItem, Comsst_DeleteItem, Comsst_ReadItem, Comsst_WriteItem and Comsst_VerifyItem are
-- check_item, delete_item, read_item, write_item and verify_item;
-- COMSST_TA_InvokeCommandEntryPoint is invoke_command. The buffer holds the name of the item,
-- whose length is the first value parameter, and after it the data; the second value parameter
-- selects the store.
--
-- Triad models of ta/triad/triad_ta.c the commands that store and load the device's key and
-- identity: TA_Store_Key, TA_Load_Key, TA_Store_DID and TA_Load_DID are store_key, load_key,
-- store_did and load_did. Triad/Hmac models TA_Get_HMAC and hmac_sha256, as get_hmac and
-- hmac_sha256, over the TEE's message authentication as a parameter. Triad/Header is struct
-- tk_auth_hdr, and Triad/Gcm models get_triad_key, triad_key_auth_crypt, TA_Gcm_Encrypt and
-- TA_Gcm_Decrypt over the TEE's authenticated encryption as a parameter; Triad/Dispatch is
-- TRIAD_TA_InvokeCommandEntryPoint.
--
-- Hello models of ta/hello_world/hello_world_ta.c the commands: PersistentObjectTest is
-- persistent_object_test, one function for each step up to its label exit, and
-- Hello_World_TA_InvokeCommandEntryPoint is invoke_command; Hello/Laws has the two calls that only
-- this application makes, and Hello/Left says what the test leaves behind.
--
-- Teec is the TEE Client API as a parameter: what a client holds (contexts, shared memories,
-- sessions), the calls, and the documented behaviour of a client of one application as a record of
-- laws, which say for each call what it does when it succeeds and that nothing has changed when it
-- fails; Teec/Local is a client in memory on which they hold. Client models ca/: Client/Pin is
-- ca/pin/pin_ca_api.c, Client/Comsst is ca/comsst/comsst_ca_api.c, Client/Triad is
-- ca/triad/triad_ca_api.c, each function under its own name. Client itself holds what these
-- functions have in common, a context, a shared memory, a session and one command, each closed
-- again on the labels of the source; Client/Laws and Client/Answer say what such a call does.
-- Client/Triad/Tool is main of ca/triad/triad_tool.c, with get_did, get_key, set_did and set_key
-- for its commands; what it prints is a list of lines, and strtoull and the bytes of a 64-bit
-- number are a parameter. Client/Triad/Local is a client in memory for the tests. Client/Pin/Spec
-- is an abstract PIN service, as a step relation, that the client and the application together
-- implement.
--
-- Permission models permission/perm_manager.c. Permission/Types has the constants and the C string
-- functions it calls, Permission/Record the queue of records (add_perm_record,
-- retotal_perm_record, record_permission_event, get_perm_record) and Permission/Record/Log its log
-- file (save_perm_record, load_perm_record; the loop over the lines takes one unit of fuel more
-- than the file has bytes, and each line has at least one where a line has room for two),
-- Permission/Store the interface of the unqlite database with the documented laws of its cursor,
-- Permission/Access the calls around a loop, and Permission/Query, Permission/Update and
-- Permission/Check the public functions. Permission/Update/Laws has the documented laws of the
-- calls that write, Permission/Update/Names and Permission/Update/Save follow the loop of
-- save_permissions, and Permission/Update/Session goes on to check_permission.
-- Permission/Update/One, Closing and Renewal do the same for update_permission.
-- Permission/Check/Decision takes check_permission from its tests of the arguments to the search
-- of the file, and Permission/Check/Exact compares that search with one by whole names.
-- Permission/Record/Log/Zeros, Lines and Rows take one written line through fgets and the scan of
-- its fields, and Permission/Record/Log/Disk is a file system in memory. Permission/Memory is a
-- database in memory on which the laws hold.
--
-- A result `none` is an access outside a buffer or an array, a null pointer that is read, or a
-- loop out of fuel. The loops over a database cursor take fuel, one unit for each entry and one
-- for the end; more fuel than the file has entries is enough, as the results on them say. The
-- loops of the applications and of the record queue are structural recursions and take none. Sizes
-- and lengths are natural numbers that the parameter blocks hold. Where the source adds lengths of
-- 32 bits or of the width of size_t, or keeps one in a field of 8 or 16 bits, the model takes the
-- remainder; the checksum of Device is kept to eight bits.
--
-- Device models of tools/set_model/set_model_api.c the checksum kvs_crc8 and psm_info_write, over
-- the calls of the C library and the property service as parameters with laws. Device/Info models
-- the key-value file: check_dir_status, is_key_exist, device_info_get, device_info_set,
-- device_info_clear and default_device_info_set under their names, with fgets and strtok written
-- out; the loop of is_key_exist takes one unit of fuel more than the file has bytes, which
-- Device/Info/Fuel shows to be enough. Device/Tool is main of tools/set_model/set_model.c over
-- these functions, with run_set, run_get and run_word for its commands; it takes the arguments as
-- a list of C strings and gives whether it returns 0 and the text it prints for `get`.
--
-- What the laws assume, beside what the interfaces document: a file that is not there cannot be
-- opened as a database, unless it may be created; unqlite_kv_cursor_first_entry, whose result the
-- source ignores, finds the entries; a stored entry is in the file at once, and unqlite_close and
-- fclose, whose results the source ignores too, lose nothing that was written. Where a lazy
-- opening, a read that fails or a commit that fails at the end breaks this, the results on
-- permission/ and on tools/ say nothing. An opening of a persistent object that fails leaves
-- TEE_HANDLE_NULL, which TEE_CloseObject takes.
--
-- Not modelled: log output; the uuid and head of an application; the lock of the record queue,
-- which is held over each operation; the test programs of ca/, which call the client functions
-- with fixed data and print what they answer; of the example application ta/hello_world what it
-- does when a session is opened, and its client ca/hello_world; the interfaces of payment
-- services, which have no implementation here. What the calls of the TEE, of unqlite and of the C
-- library do is a parameter with named laws.
pub mod Base
pub mod Decimal
pub mod Tee
pub mod Ta
pub mod Pin
pub mod Comsst
pub mod Triad
pub mod Hello
pub mod Teec
pub mod Client
pub mod Permission
pub mod Device
