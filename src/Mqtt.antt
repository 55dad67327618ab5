-- ===== src/Mqtt.antt =====
-- `MQTTClient` of HES/src/mqtt.cpp: the queues of commands that a broker sends, and the checks that a
-- command must pass. `none` is an exception that nothing catches.
pub mod Queues
pub mod Commands
pub mod Messages
