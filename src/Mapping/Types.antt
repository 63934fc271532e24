-- ===== src/Mapping/Types.antt =====
-- The enumerations of domain/interfaces and domain/models that the payloads name, and the values that
-- payloads, models and documents share.
use cleveremote_box.Base.{ℕ}
use cleveremote_box.Domain.{ExecutableAction, ProcessMode}
use cleveremote_box.Mapping.Json.{Field}

pub data ExecutionMode : Type 0 where
  sequential parallel : ExecutionMode

pub data SunState : Type 0 where
  sunrise sunset : SunState

pub data TimeDirection : Type 0 where
  before after : TimeDirection

pub data ElementType : Type 0 where
  cycle_element sequence_element sensor_element : ElementType

pub data ConditionSymbolStart : Type 0 where
  open_paren not_symbol : ConditionSymbolStart

pub data ConditionSymbolEnd : Type 0 where
  close_paren and_symbol or_symbol : ConditionSymbolEnd

pub data SensorType : Type 0 where
  forcast com_sensor master_com : SensorType

pub data ForcastDataName : Type 0 where
  temperature_2m_max temperature_2m_min : ForcastDataName

pub data ModuleStatus : Type 0 where
  status_on status_off : ModuleStatus

pub data GpioDirection : Type 0 where
  gpio_in gpio_out gpio_high gpio_low : GpioDirection

pub data GpioEdge : Type 0 where
  no_edge rising falling both_edges : GpioEdge

pub data DeviceType : Type 0 where
  master slave : DeviceType

pub data DeviceKind : Type 0 where
  modbus_slave inverter : DeviceKind

pub data MasterProtocol : Type 0 where
  tcp rtu : MasterProtocol

pub data ComRequestType : Type 0 where
  digital_io_reset digital_io_init com_init com_reset com_read com_write : ComRequestType
  digital_input digital_output analog_output analog_input : ComRequestType
  inverter_init inverter_reset inverter_write inverter_read : ComRequestType

-- `Style` and `IconColorSync`
pub record IconColorSync : Type 0 where
  pub icon : ℕ
  pub base : ℕ

pub record Style : Type 0 where
  pub bg_color : ℕ
  pub font_color : ℕ
  pub icon_color : Field IconColorSync

-- `ModePriority`
pub record ModePriority : Type 0 where
  pub mode : ProcessMode
  pub priority : ℕ

-- The value of a condition: a number or an action
pub data ConditionValue : Type 0 where
  number : ℕ → ConditionValue
  action : ExecutableAction → ConditionValue
